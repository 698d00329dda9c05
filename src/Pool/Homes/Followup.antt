-- ===== src/Pool/Homes/Followup.antt =====
-- hub/internal/pool/pool.go: the next turn of a conversation finds the machine of the last one.
use mathlib.Core.List.{append_assoc}
use homedash.Prelude.{
  ℕ, ◌-◌, ◌<◌, All, ◌≡◌, refl, sym, ap, ◌∙◌, String, false, Option, none, some, List, [], ◌∷◌, ◌++◌,
  arith, str_eq,
}
use homedash.Pool.{Pool, Home}
use homedash.Pool.Homes.Kept.{
  lookup-remember, lookup-remember_other, remember_all, IsAside, remember_all-lookups,
}
use homedash.Pool.Homes.{
  keys_from, conversation_keys, lookup, home, or_home, live, remember, two_hours,
}

-- The last message of a turn that starts with `m`.
keys_from-snoc :
    (digest : List String → String) (seen : List String) (m : String) (ms : List String)
    (last : String)
    → (keys_from digest seen m (ms ++ last ∷ [])).0
      ≡ (keys_from digest seen m ms).0 ++ (keys_from digest seen m ms).1 ∷ []
unfolding keys_from
keys_from-snoc digest seen m [] last = refl
keys_from-snoc digest seen m (next ∷ ms) last =
    ap (λ ks. digest (seen ++ m ∷ []) ∷ ks) (keys_from-snoc digest (seen ++ m ∷ []) next ms last)

keys_from-key :
    (digest : List String → String) (seen : List String) (m : String) (ms : List String)
    → (keys_from digest seen m ms).1 ≡ digest (seen ++ m ∷ ms)
unfolding keys_from
keys_from-key digest seen m [] = refl
keys_from-key digest seen m (next ∷ ms) =
    keys_from-key digest (seen ++ m ∷ []) next ms
    ∙ ap digest (append_assoc seen (m ∷ []) (next ∷ ms))

or_home_assoc : (x y z : Option Home) → or_home (or_home x y) z ≡ or_home x (or_home y z)
or_home_assoc none y z = refl
or_home_assoc (some hm) y z = refl

or_home-none : (x : Option Home) → or_home x none ≡ x
or_home-none none = refl
or_home-none (some hm) = refl

home-snoc :
    (now : ℕ) (ks : List String) (k : String) (homes : List (String × Home))
    → home now (ks ++ k ∷ []) homes ≡ or_home (live now (lookup k homes)) (home now ks homes)
unfolding home
home-snoc now [] k homes = sym (or_home-none (live now (lookup k homes)))
home-snoc now (x ∷ ks) k homes =
    ap (λ o. or_home o (live now (lookup x homes))) (home-snoc now ks k homes)
    ∙ or_home_assoc (live now (lookup k homes)) (home now ks homes) (live now (lookup x homes))

home-found :
    (now later : ℕ) (ks : List String) (key reply : String) (hm : Home)
    (homes : List (String × Home))
    → hm.at ≡ now
    → later - now < two_hours
    → lookup key homes ≡ some hm
    → lookup reply homes ≡ none
    → home later ((ks ++ key ∷ []) ++ reply ∷ []) homes ≡ some hm
home-found now later ks key reply hm homes a t e n =
    home-snoc later (ks ++ key ∷ []) reply homes
    ∙ ap (λ o. or_home (live later o) (home later (ks ++ key ∷ []) homes)) n
    ∙ home-snoc later ks key homes
    ∙ ap (λ o. or_home (live later o) (home later ks homes)) e
    ∙ (rw a (ground arith))

-- After a turn with the messages `m ∷ ms` was placed and its home kept, the turn that carries the
-- same messages, the reply and one more question finds that home, within two hours, whatever other
-- turns keep in between within an hour of it and under other hashes. It relies on the hash of the
-- history with the reply being another than that of the history without, and on nothing being kept
-- under it.
pub home_of_next_turn :
    (digest : List String → String) (m : String) (ms : List String) (reply question : String)
    (now later : ℕ) (hm : Home) (p : Pool) (turns : List (ℕ × String × Home))
    → hm.at ≡ now
    → later - now < two_hours
    → str_eq (digest (m ∷ ms)) (digest (m ∷ (ms ++ reply ∷ []))) ≡ false
    → lookup (digest (m ∷ (ms ++ reply ∷ []))) p.homes ≡ none
    → All (IsAside now (digest (m ∷ ms)) (digest (m ∷ (ms ++ reply ∷ [])))) turns
    → home later
        (conversation_keys digest (m ∷ ((ms ++ reply ∷ []) ++ question ∷ []))).1
        (remember_all turns (remember now (conversation_keys digest (m ∷ ms)).0 hm p)).homes
      ≡ some hm
unfolding conversation_keys
home_of_next_turn digest m ms reply question now later hm p turns a t n e aside =
    let key = digest (m ∷ ms) in
    let next = digest (m ∷ (ms ++ reply ∷ [])) in
    let found =
      remember_all-lookups now key next hm turns (remember now key hm p) a aside
        (lookup-remember now key hm p) (lookup-remember_other now key next hm p n e) in
    rw
      (
        keys_from-snoc digest [] m (ms ++ reply ∷ []) question,
        keys_from-snoc digest [] m ms reply,
        keys_from-key digest [] m (ms ++ reply ∷ []),
        keys_from-key digest [] m ms,
      )
      (home-found now later (keys_from digest [] m ms).0 key next hm
        (remember_all turns (remember now key hm p)).homes a t found.0 found.1)
