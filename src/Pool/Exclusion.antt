-- ===== src/Pool/Exclusion.antt =====
-- hub/internal/pool/pool.go: one request per machine, over any interleaving of turns. The state is
-- the pool and the ids of the machines whose answers are being streamed.
use homedash.Prelude.Marks.{distinct, remove_one, remove_one-keep, distinct-keep}
use homedash.Prelude.{
  ℕ, ◌≡◌, refl, sym, ap, subst, ◌∙◌, String, Bool, true, false, not, ◌||◌, Option, none, some, List,
  [], ◌∷◌, ◌==◌, arith, any, keep, if◌then◌else◌, length,
}
use homedash.Hosts.{Host, is_online, resolve, decimal}
use homedash.Pool.{Pool, fresh, is_busy, take, acquire, release, enqueue, dequeue, Home}
use homedash.Pool.Pick.{World, pick}
use homedash.Pool.Order.{first_of, free_holder, mark, pick_from-choice, pick_from-mark}
use homedash.Pool.Homes.{remember}
use homedash.Pool.Place.{proxy, remember_turn}

pub data Event : Type 0 where
  asks : World → String → Event
  asks_home : List Host → (ℕ → Bool) → ℕ → Event
  ends : ℕ → String → Bool → Host → Event
  queues : ℕ → Event
  leaves : Event
  peer_answers : ℕ → String → Home → Event

abbrev pub add : Option Host → List ℕ → List ℕ
add none serving = serving
add (some h) serving = h.id ∷ serving

abbrev pub got_by : List ℕ → Option Host × Pool → Pool × List ℕ
got_by serving (got, p) = (p, add got serving)

abbrev pub step : Event → Pool × List ℕ → Pool × List ℕ
step (asks w model) (p, serving) = got_by serving ((pick w model p).0.0, (pick w model p).1)
step (asks_home hosts disabled id) (p, serving) = got_by serving (acquire hosts disabled id p)
step (ends now key reached h) (p, serving) =
    if any (λ x. x == h.id) serving
    then (proxy now key reached h p, remove_one h.id serving)
    else (p, serving)
step (queues depth) (p, serving) = ((enqueue depth p).1, serving)
step leaves (p, serving) = (dequeue p, serving)
step (peer_answers now key hm) (p, serving) = (remember_turn now key hm p, serving)

abbrev pub run : List Event → Pool × List ℕ → Pool × List ℕ
run [] s = s
run (e ∷ es) s = run es (step e s)

abbrev Marked : Pool → Option Host → Pool → Type 0
Marked p none p' = p'.busy ≡ p.busy
Marked p (some h) p' = (is_busy h.id p.busy ≡ false) × (p'.busy ≡ h.id ∷ p.busy)

take-Marked :
    (h : Host) (p : Pool) (b : Bool) → is_busy h.id p.busy ≡ b → Marked p (take h p).0 (take h p).1
unfolding take
take-Marked h p true e = rw e refl
take-Marked h p false e = rw e (e, refl)

free_holder-free :
    (w : World) (model : String) (p : Pool) (h : Host)
    → free_holder w model p h ≡ true
    → is_busy h.id p.busy ≡ false
free_holder-free w model p h e = ground arith

chosen-Marked :
    (w : World) (model : String) (h : Host) (rest : Option Host) (p : Pool) (b : Bool)
    → free_holder w model p h ≡ b
    → Marked p rest (mark rest p)
    → Marked p (if b then some h else rest) (mark (if b then some h else rest) p)
chosen-Marked w model h rest p true e m = (free_holder-free w model p h e, refl)
chosen-Marked w model h rest p false e m = m

first_of-Marked :
    (w : World) (model : String) (hs : List Host) (p : Pool)
    → Marked p (first_of (free_holder w model p) hs) (mark (first_of (free_holder w model p) hs) p)
first_of-Marked w model [] p = refl
first_of-Marked w model (h ∷ hs) p =
    chosen-Marked w model h (first_of (free_holder w model p) hs) p (free_holder w model p h) refl
      (first_of-Marked w model hs p)

pick-Marked :
    (w : World) (model : String) (p : Pool) (hosts : Option (List Host))
    → w.hosts ≡ hosts
    → Marked p (pick w model p).0.0 (pick w model p).1
unfolding pick
pick-Marked w model p none e = rw e refl
pick-Marked w model p (some hs) e =
    rw
      (
        e,
        pick_from-choice w model (length hs) hs false 0 p,
        pick_from-mark w model (length hs) hs false 0 p,
      )
      (first_of-Marked w model hs p)

if-Marked :
    (p : Pool) (b : Bool) (r : Option Host × Pool)
    → Marked p r.0 r.1
    → Marked p (if b then (none, p) else r).0 (if b then (none, p) else r).1
if-Marked p true r m = refl
if-Marked p false r m = m

acquire-Marked :
    (hosts : List Host) (disabled : ℕ → Bool) (id : ℕ) (p : Pool) (got : Option Host)
    → resolve (decimal id) hosts ≡ got
    → Marked p (acquire hosts disabled id p).0 (acquire hosts disabled id p).1
unfolding acquire
acquire-Marked hosts disabled id p none e = rw (e, acquire) refl
acquire-Marked hosts disabled id p (some h) e =
    rw (e, acquire)
      (if-Marked p (not (is_online h.status) || disabled h.id) (take h p)
        (take-Marked h p (is_busy h.id p.busy) refl))

-- The marks are the machines at work, and no machine is at work twice.
abbrev pub Exclusive : Pool × List ℕ → Type 0
Exclusive (p, serving) = (p.busy ≡ serving) × (distinct serving ≡ true)

got_by-Exclusive :
    (p p' : Pool) (got : Option Host) (serving : List ℕ)
    → Marked p got p'
    → Exclusive (p, serving)
    → Exclusive (p', add got serving)
got_by-Exclusive p p' none serving m (e, d) = (m ∙ e, d)
got_by-Exclusive p p' (some h) serving (f, m) (e, d) =
    (m ∙ ap (λ xs. h.id ∷ xs) e, rw (sym e, f) (subst (λ xs. distinct xs ≡ true) (sym e) d))

remember_turn-busy :
    (now : ℕ) (key : String) (hm : Home) (p : Pool) → (remember_turn now key hm p).busy ≡ p.busy
unfolding remember_turn remember
remember_turn-busy now key hm p = ground arith

proxy-busy :
    (now : ℕ) (key : String) (reached : Bool) (h : Host) (p : Pool)
    → (proxy now key reached h p).busy ≡ keep (λ x. not (x == h.id)) p.busy
unfolding proxy release
proxy-busy now key false h p = refl
proxy-busy now key true h p =
    ap (keep (λ x. not (x == h.id)))
      (remember_turn-busy now key (record { host_id = h.id; peer = ""; at = now }) p)

if-Exclusive :
    (b : Bool) (s t : Pool × List ℕ) → Exclusive s → Exclusive t → Exclusive (if b then s else t)
if-Exclusive true s t i j = i
if-Exclusive false s t i j = j

released-Exclusive :
    (now : ℕ) (key : String) (reached : Bool) (h : Host) (p : Pool) (serving : List ℕ)
    → Exclusive (p, serving)
    → Exclusive (proxy now key reached h p, remove_one h.id serving)
released-Exclusive now key reached h p serving (e, d) = (
  proxy-busy now key reached h p
      ∙ ap (keep (λ x. not (x == h.id))) e
      ∙ remove_one-keep h.id serving d,
  subst (λ xs. distinct xs ≡ true) (remove_one-keep h.id serving d) (distinct-keep h.id serving d),
)

step-Exclusive : (e : Event) (s : Pool × List ℕ) → Exclusive s → Exclusive (step e s)
unfolding enqueue dequeue
step-Exclusive (asks w model) (p, serving) i =
    got_by-Exclusive p (pick w model p).1 (pick w model p).0.0 serving
      (pick-Marked w model p w.hosts refl) i
step-Exclusive (asks_home hosts disabled id) (p, serving) i =
    got_by-Exclusive p (acquire hosts disabled id p).1 (acquire hosts disabled id p).0 serving
      (acquire-Marked hosts disabled id p (resolve (decimal id) hosts) refl) i
step-Exclusive (ends now key reached h) (p, serving) i =
    if-Exclusive (any (λ x. x == h.id) serving) (proxy now key reached h p, remove_one h.id serving)
      (p, serving) (released-Exclusive now key reached h p serving i) i
step-Exclusive (queues depth) (p, serving) (e, d) = (ground arith, d)
step-Exclusive leaves (p, serving) (e, d) = (ground arith, d)
step-Exclusive (peer_answers now key hm) (p, serving) (e, d) =
    (remember_turn-busy now key hm p ∙ e, d)

run-Exclusive : (es : List Event) (s : Pool × List ℕ) → Exclusive s → Exclusive (run es s)
run-Exclusive [] s i = i
run-Exclusive (e ∷ es) s i = run-Exclusive es (step e s) (step-Exclusive e s i)

-- From a fresh pool, after any sequence of turns that are placed by `pick` or go to their
-- conversation's home, of answers that end, of waits and of peers' answers: the machines marked busy
-- are those that stream an answer, and none of them streams two.
pub one_answer_per_machine :
    (es : List Event)
    → ((run es (fresh, [])).0.busy ≡ (run es (fresh, [])).1)
      × (distinct (run es (fresh, [])).1 ≡ true)
one_answer_per_machine es = run-Exclusive es (fresh, []) (refl, refl)
