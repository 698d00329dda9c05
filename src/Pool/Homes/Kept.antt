-- ===== src/Pool/Homes/Kept.antt =====
-- hub/internal/pool/pool.go: what `remember` leaves of the homes that are kept already.
use homedash.Prelude.{
  ℕ, ◌-◌, ◌≤◌, All, subst, Bool-cases, inl, inr, ◌≡◌, refl, sym, ap, String, Bool, true, false, not,
  none, some, List, [], ◌∷◌, arith, ltb, str_eq, str_eq_iff, if◌then◌else◌, keep, length,
}
use homedash.Pool.{Pool, Home}
use homedash.Pool.Homes.{lookup, remember, one_hour}

str_eq_refl : (s : String) → str_eq s s ≡ true
str_eq_refl s = (str_eq_iff s s).1 refl

pub lookup-remember :
    (now : ℕ) (key : String) (hm : Home) (p : Pool)
    → lookup key (remember now key hm p).homes ≡ some hm
unfolding remember lookup
lookup-remember now key hm p = rw (str_eq_refl key) refl

lookup-keep :
    (test : String × Home → Bool) (key : String) (homes : List (String × Home))
    → lookup key homes ≡ none
    → lookup key (keep test homes) ≡ none
unfolding lookup
lookup-keep test key [] e = refl
lookup-keep test key ((k, hm) ∷ rest) e = let i = lookup-keep test key rest in ground arith

pub lookup-remember_other :
    (now : ℕ) (key other : String) (hm : Home) (p : Pool)
    → str_eq key other ≡ false
    → lookup other p.homes ≡ none
    → lookup other (remember now key hm p).homes ≡ none
unfolding remember lookup
lookup-remember_other now key other hm p n e =
    let e1 = lookup-keep (λ h. not (ltb one_hour (now - h.1.at))) other p.homes e in
    let e2 = lookup-keep (λ h. not (str_eq h.0 key)) other p.homes e in
    let e3 =
      lookup-keep (λ h. not (str_eq h.0 key)) other
        (keep (λ h. not (ltb one_hour (now - h.1.at))) p.homes) e1 in
    rw n
      (elim (ltb 10000 (length p.homes))
        as (λ b.
          lookup other (
            keep (λ h. not (str_eq h.0 key))
              (if b then keep (λ h. not (ltb one_hour (now - h.1.at))) p.homes else p.homes))
          ≡ none) [ true ↦ e3 | false ↦ e2 ])

lookup-keep_found :
    (test : String × Home → Bool) (key : String) (hm : Home) (homes : List (String × Home))
    → ((k : String) → str_eq k key ≡ true → test (k, hm) ≡ true)
    → lookup key homes ≡ some hm
    → lookup key (keep test homes) ≡ some hm
unfolding lookup
lookup-keep_found test key hm [] f e = e
lookup-keep_found test key hm ((k, h) ∷ rest) f e = elim (Bool-cases (str_eq k key)) [
  | inl q ↦
      let e' : some h ≡ some hm = rw (q) at e in
      let same : h ≡ hm = cc in
      let passes : test (k, h) ≡ true = subst (λ x. test (k, x) ≡ true) (sym same) (f k q) in
      rw (passes) (rw (q) e')
  | inr q ↦
      let e' = rw (q) at e in
      let i = lookup-keep_found test key hm rest f e' in
      elim (Bool-cases (test (k, h))) [ inl t ↦ rw (t) (rw (q) i) | inr t ↦ rw (t) i ]
]

other_key :
    (k key other : String)
    → str_eq other key ≡ false
    → str_eq k key ≡ true
    → not (str_eq k other) ≡ true
other_key k key other n e =
    let a = str_eq_iff k key in
    let b = str_eq_iff k other in let c = str_eq_iff other key in ground arith

-- A home of another key stays, at most an hour after it was kept.
lookup-remember_stays :
    (t : ℕ) (key other : String) (hm new : Home) (p : Pool)
    → ltb one_hour (t - hm.at) ≡ false
    → str_eq other key ≡ false
    → lookup key p.homes ≡ some hm
    → lookup key (remember t other new p).homes ≡ some hm
unfolding remember lookup
lookup-remember_stays t key other hm new p young n e =
    let old =
      lookup-keep_found (λ h. not (ltb one_hour (t - h.1.at))) key hm p.homes (λ k q. ap not young)
        e in
    let apart : (k : String) → str_eq k key ≡ true → not (str_eq k other) ≡ true =
      λ k q. other_key k key other n q in
    rw n
      (elim (ltb 10000 (length p.homes))
        as (λ b.
          lookup key (
            keep (λ h. not (str_eq h.0 other))
              (if b then keep (λ h. not (ltb one_hour (t - h.1.at))) p.homes else p.homes))
          ≡ some hm) [
            | true ↦
                lookup-keep_found (λ h. not (str_eq h.0 other)) key hm
                  (keep (λ h. not (ltb one_hour (t - h.1.at))) p.homes) apart old
            | false ↦ lookup-keep_found (λ h. not (str_eq h.0 other)) key hm p.homes apart e
          ])

-- What other turns keep: each at its time, under its key.
abbrev pub remember_all : List (ℕ × String × Home) → Pool → Pool
remember_all [] p = p
remember_all ((t, k, hm) ∷ turns) p = remember_all turns (remember t k hm p)

-- A turn under neither key, at most an hour after a time.
abbrev pub IsAside : ℕ → String → String → ℕ × String × Home → Type 0
IsAside now key reply (t, k, hm) =
    (t - now ≤ one_hour) × (str_eq k key ≡ false) × (str_eq k reply ≡ false)

pub remember_all-lookups :
    (now : ℕ) (key reply : String) (hm : Home) (turns : List (ℕ × String × Home)) (p : Pool)
    → hm.at ≡ now
    → All (IsAside now key reply) turns
    → lookup key p.homes ≡ some hm
    → lookup reply p.homes ≡ none
    → (lookup key (remember_all turns p).homes ≡ some hm)
      × (lookup reply (remember_all turns p).homes ≡ none)
remember_all-lookups now key reply hm [] p a h e n = (e, n)
remember_all-lookups now key reply hm ((t, k, new) ∷ turns) p a ((young, apart, aside), h) e n =
    remember_all-lookups now key reply hm turns (remember t k new p) a h
      (lookup-remember_stays t key k hm new p (rw (a) (ground arith)) apart e)
      (lookup-remember_other t k reply new p aside n)
