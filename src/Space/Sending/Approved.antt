-- ===== src/Space/Sending/Approved.antt =====
-- hub/internal/peers/peers.go: whom `Place` asks.
use homedash.Prelude.{
  ℕ, ◌≡◌, refl, ap, ◌∙◌, String, Bool, true, false, ◌||◌, ◌&&◌, ◌-◌, ltb, str_eq, Option, none,
  some, List, [], ◌∷◌, any, keep, All, Bool-cases, inl, inr,
}
use homedash.Pool.Pick.{with_latest}
use homedash.Sort.{insertion_sort, All-insertion_sort, any-insertion_sort}
use homedash.Space.Tables.{Peer, PeerJob, Tables, find_peer}
use homedash.Space.Sending.{
  Offer, Offers, Answer, no_reply, refuses, takes, breaks, Placed, no_peer, placed_at, refused_by,
  is_approved, is_candidate, open_offers, candidates, send, or_go_on, try_each, place_peer,
}

All-keep_lem {ℓ κ} :
    {A : Type ℓ} (p : A → Bool) (P : A → Type κ)
    → ((x : A) → p x ≡ true → P x)
    → (xs : List A) → All P (keep p xs)
All-keep_lem p P f [] = tt
All-keep_lem p P f (x ∷ xs) = elim (Bool-cases (p x)) [
  | inl e ↦ rw (e) (f x e, All-keep_lem p P f xs)
  | inr e ↦ rw (e) (All-keep_lem p P f xs)
]

or_go_on-cong :
    (name : String) (r : Option String × List PeerJob)
    (f g : Placed → List PeerJob → Placed × List PeerJob)
    → ((last : Placed) (jobs : List PeerJob) → f last jobs ≡ g last jobs)
    → or_go_on name r f ≡ or_go_on name r g
or_go_on-cong name (none, jobs) f g h = refl
or_go_on-cong name (some why, jobs) f g h = h (refused_by name why) jobs

try_each-cong :
    (now : ℕ) (model : String) (ask other : String → Answer) (cs : List (String × Offer))
    (last : Placed) (jobs : List PeerJob)
    → All (λ c. ask c.0 ≡ other c.0) cs
    → try_each now model ask cs last jobs ≡ try_each now model other cs last jobs
unfolding try_each
try_each-cong now model ask other [] last jobs h = refl
try_each-cong now model ask other (c ∷ cs) last jobs h = rw (h.0) (
    or_go_on-cong c.1.name (send now c.0 model (other c.0) jobs) (try_each now model ask cs)
      (try_each now model other cs)
      (λ next rows. try_each-cong now model ask other cs next rows h.1))

-- What a peer would answer that the table does not approve makes no difference to `Place`: neither to
-- what it returns nor to the rows it leaves.
pub place_peer-cong :
    (now : ℕ) (model : String) (better : String × Offer → String × Offer → Bool)
    (ask other : String → Answer) (offers : Offers) (s : Tables)
    → ((id : String) → is_approved (find_peer id s.peers) ≡ true → ask id ≡ other id)
    → place_peer now model better ask offers s ≡ place_peer now model better other offers s
unfolding place_peer candidates
place_peer-cong now model better ask other offers s agree =
    ap (λ r. (r.0, record s { jobs = r.1 }))
      (try_each-cong now model ask other
        (insertion_sort better (candidates now model s.peers offers)) no_peer s.jobs
        (All-insertion_sort better (λ c. ask c.0 ≡ other c.0) (candidates now model s.peers offers)
          (All-keep_lem (λ c. is_approved (find_peer c.0 s.peers)) (λ c. ask c.0 ≡ other c.0)
            (λ c. agree c.0) (keep (λ c. is_candidate now model c.1) (open_offers offers)))))

abbrev pub accepts : Answer → Bool
accepts takes = true
accepts _ = false

abbrev pub is_placed : Placed → Bool
is_placed (placed_at name) = true
is_placed _ = false

send-is_placed :
    (now : ℕ) (c : String × Offer) (model : String) (a : Answer) (jobs : List PeerJob) (rest : Bool)
    (on : Placed → List PeerJob → Placed × List PeerJob)
    → ((why : String) (rows : List PeerJob)
        → is_placed (on (refused_by c.1.name why) rows).0 ≡ rest)
    → is_placed (or_go_on c.1.name (send now c.0 model a jobs) on).0 ≡ (accepts a || rest)
unfolding send
send-is_placed now c model (no_reply why) jobs rest on h = h why jobs
send-is_placed now c model (refuses why) jobs rest on h = h why _
send-is_placed now c model takes jobs rest on h = refl
send-is_placed now c model (breaks why) jobs rest on h = h why _

try_each-is_placed :
    (now : ℕ) (model : String) (ask : String → Answer) (cs : List (String × Offer)) (last : Placed)
    (jobs : List PeerJob)
    → is_placed last ≡ false
    → is_placed (try_each now model ask cs last jobs).0 ≡ any (λ c. accepts (ask c.0)) cs
unfolding try_each
try_each-is_placed now model ask [] last jobs h = h
try_each-is_placed now model ask (c ∷ cs) last jobs h =
    send-is_placed now c model (ask c.0) jobs (any (λ x. accepts (ask x.0)) cs)
      (try_each now model ask cs)
      (λ why rows. try_each-is_placed now model ask cs (refused_by c.1.name why) rows refl)

any-keep {ℓ} :
    {A : Type ℓ} (p f : A → Bool) (xs : List A) → any f (keep p xs) ≡ any (λ x. p x && f x) xs
any-keep p f [] = refl
any-keep p f (x ∷ xs) = elim (Bool-cases (p x)) [
  | inl e ↦ rw (e) (ap (λ b. f x || b) (any-keep p f xs))
  | inr e ↦ rw (e) (any-keep p f xs)
]

any-pointwise {ℓ} :
    {A : Type ℓ} (p f : A → Bool) → ((x : A) → p x ≡ f x) → (xs : List A) → any p xs ≡ any f xs
any-pointwise p f h [] = refl
any-pointwise p f h (x ∷ xs) = rw (h x, any-pointwise p f h xs) refl

and_right : (a b c d : Bool) → (a && (b && c)) && d ≡ a && (b && (c && d))
and_right true true c d = refl
and_right true false c d = refl
and_right false b c d = refl

-- The filters of `Place`, one after the other, and their tests in one.
candidates-any :
    (now : ℕ) (model : String) (ask : String → Answer) (peers : List Peer) (offers : Offers)
    → any (λ c. accepts (ask c.0)) (candidates now model peers offers)
      ≡ any
          (λ c.
            ltb (now - c.1.at) 180000
            && (c.1.free
                && (any (λ m. str_eq m model || str_eq m (with_latest model)) c.1.models
                    && (is_approved (find_peer c.0 peers) && accepts (ask c.0)))))
          (open_offers offers)
unfolding candidates
candidates-any now model ask peers offers =
    any-keep (λ c. is_approved (find_peer c.0 peers)) (λ c. accepts (ask c.0))
      (keep (λ c. is_candidate now model c.1) (open_offers offers))
    ∙ any-keep (λ c. is_candidate now model c.1)
        (λ c. is_approved (find_peer c.0 peers) && accepts (ask c.0)) (open_offers offers)
    ∙ any-pointwise _ _
        (λ c.
          and_right (ltb (now - c.1.at) 180000) c.1.free
            (any (λ m. str_eq m model || str_eq m (with_latest model)) c.1.models)
            (is_approved (find_peer c.0 peers) && accepts (ask c.0)))
        (open_offers offers)

-- A job is placed exactly when some peer would take it that the table approves and whose offer is
-- younger than three minutes, is free and names the model, or the model with `:latest`, in whatever
-- order the scores put them.
pub place_peer-is_placed :
    (now : ℕ) (model : String) (better : String × Offer → String × Offer → Bool)
    (ask : String → Answer) (offers : Offers) (s : Tables)
    → is_placed (place_peer now model better ask offers s).0
      ≡ any
          (λ c.
            ltb (now - c.1.at) 180000
            && (c.1.free
                && (any (λ m. str_eq m model || str_eq m (with_latest model)) c.1.models
                    && (is_approved (find_peer c.0 s.peers) && accepts (ask c.0)))))
          (open_offers offers)
unfolding place_peer
place_peer-is_placed now model better ask offers s =
    try_each-is_placed now model ask (insertion_sort better (candidates now model s.peers offers))
      no_peer s.jobs refl
    ∙ any-insertion_sort better (λ c. accepts (ask c.0)) (candidates now model s.peers offers)
    ∙ candidates-any now model ask s.peers offers
