-- ===== src/Pool/Order.antt =====
-- hub/internal/pool/pool.go: what `pick` chooses.
use homedash.Prelude.{
  ℕ, suc, ◌≡◌, refl, String, Bool, true, false, not, ◌&&◌, Option, none, some, List, [], ◌∷◌,
  if◌then◌else◌, arith,
}
use homedash.Hosts.{Host}
use homedash.Pool.{Pool, take, is_busy}
use homedash.Pool.Pick.{World, eligible, pick_from}

-- A machine that may serve the request and is not serving another.
abbrev pub free_holder : World → String → Pool → Host → Bool
free_holder w model p h = eligible w model h && not (is_busy h.id p.busy)

abbrev pub first_of : (Host → Bool) → List Host → Option Host
first_of test [] = none
first_of test (h ∷ hs) = if test h then some h else first_of test hs

abbrev pub mark : Option Host → Pool → Pool
mark none p = p
mark (some h) p = record p { busy = h.id ∷ p.busy }

abbrev pub is_none : Option Host → Bool
is_none none = true
is_none (some h) = false

pub pick_from-choice :
    (w : World) (model : String) (total : ℕ) (hs : List Host) (b : Bool) (k : ℕ) (p : Pool)
    → (pick_from w model total hs b k p).0.0 ≡ first_of (free_holder w model p) hs
unfolding pick_from take
pick_from-choice w model total [] b k p = refl
pick_from-choice w model total (h ∷ hs) b k p =
    let i1 = pick_from-choice w model total hs b k p in
    let i2 = pick_from-choice w model total hs true (suc k) p in ground arith

pub pick_from-mark :
    (w : World) (model : String) (total : ℕ) (hs : List Host) (b : Bool) (k : ℕ) (p : Pool)
    → (pick_from w model total hs b k p).1 ≡ mark (first_of (free_holder w model p) hs) p
unfolding pick_from take
pick_from-mark w model total [] b k p = refl
pick_from-mark w model total (h ∷ hs) b k p =
    let i1 = pick_from-mark w model total hs b k p in
    let i2 = pick_from-mark w model total hs true (suc k) p in ground arith
