-- ===== src/Sort.antt =====
-- The insertion sorts of hub/internal/pool/pool.go (`sortStrings`) and hub/internal/peers/peers.go
-- (`sortCands`). The part that is sorted is held from its end, where the inner loop begins: a swap
-- moves the new item one place towards the front while it is less than the one before it.
pub mod Examples
use mathlib.Core.List.{Perm, reverse, reverse_aux, reverse_perm, append-nil, perm_middle}
use mathlib.Core.List.Perm
use homedash.Prelude.{
  ◌≡◌, refl, sym, Bool, true, false, List, [], ◌∷◌, ◌++◌, arith, if◌then◌else◌, Bool-cases, inl,
  inr, All, if-either, any, ◌||◌,
}

module _ {ℓ} {A : Type ℓ} (less : A → A → Bool) where
  -- The inner loop.
  sink : A → List A → List A
  sink x [] = x ∷ []
  sink x (y ∷ before) = let rest = sink x before in if less x y then y ∷ rest else x ∷ y ∷ before

  sort_onto : List A → List A → List A
  unfolding sink
  sort_onto before [] = before
  sort_onto before (x ∷ xs) = sort_onto (sink x before) xs

  unfoldable pub insertion_sort : List A → List A
  unfolding sort_onto
  insertion_sort xs = reverse (sort_onto [] xs)

  perm-sink : (x : A) (before : List A) → Perm (sink x before) (x ∷ before)
  unfolding sink
  perm-sink x [] = Perm.refl _
  perm-sink x (y ∷ before) = elim (Bool-cases (less x y)) [
    | inl e ↦ rw (e, sink) (Perm.trans (Perm.cons y (perm-sink x before)) (Perm.swap x y before))
    | inr e ↦ rw (e, sink) (Perm.refl _)
  ]

  perm-sort_onto : (before xs : List A) → Perm (sort_onto before xs) (before ++ xs)
  unfolding sort_onto
  perm-sort_onto before [] = rw append-nil (Perm.refl before)
  perm-sort_onto before (x ∷ xs) = Perm.trans (perm-sort_onto (sink x before) xs) (
      Perm.trans (Perm.append (perm-sink x before) (Perm.refl xs))
        (Perm.symm (perm_middle before xs)))

  -- The sort keeps the items, each as often as it occurs.
  pub perm-insertion_sort : (xs : List A) → Perm (insertion_sort xs) xs
  unfolding insertion_sort
  perm-insertion_sort xs = Perm.trans (reverse_perm (sort_onto [] xs)) (perm-sort_onto [] xs)

  -- From the end towards the front, no item is less than the one before it.
  abbrev Falls : List A → Type 0
  Falls [] = Unit {0}
  Falls (y ∷ []) = Unit {0}
  Falls (y ∷ z ∷ before) = (less y z ≡ false) × Falls (z ∷ before)

  -- From the front, no item is less than the one before it.
  abbrev pub IsSorted : List A → Type 0
  IsSorted [] = Unit {0}
  IsSorted (y ∷ []) = Unit {0}
  IsSorted (y ∷ z ∷ after) = (less z y ≡ false) × IsSorted (z ∷ after)

  module _ (asymm : (x y : A) → less x y ≡ true → less y x ≡ false) where
    Falls-sink_under :
        (x y : A) (before : List A)
        → less x y ≡ true
        → Falls (y ∷ before)
        → Falls (y ∷ sink x before)
    unfolding sink
    Falls-sink_under x y [] e f = (asymm x y e, tt)
    Falls-sink_under x y (z ∷ before) e f = elim (Bool-cases (less x z)) [
      | inl e' ↦ rw (e', sink) (f.0, Falls-sink_under x z before e' f.1)
      | inr e' ↦ rw (e', sink) (asymm x y e, (e', f.1))
    ]

    Falls-sink : (x : A) (before : List A) → Falls before → Falls (sink x before)
    unfolding sink
    Falls-sink x [] f = tt
    Falls-sink x (y ∷ before) f = elim (Bool-cases (less x y)) [
      | inl e ↦ rw (e, sink) (Falls-sink_under x y before e f)
      | inr e ↦ rw (e, sink) (e, f)
    ]

    Falls-sort_onto : (before xs : List A) → Falls before → Falls (sort_onto before xs)
    unfolding sort_onto
    Falls-sort_onto before [] f = f
    Falls-sort_onto before (x ∷ xs) f = Falls-sort_onto (sink x before) xs (Falls-sink x before f)

    -- Turning the list round turns the order round.
    reverse_aux-IsSorted :
        (y : A) (l acc : List A)
        → Falls (y ∷ l)
        → IsSorted (y ∷ acc)
        → IsSorted (reverse_aux l (y ∷ acc))
    reverse_aux-IsSorted y [] acc f s = s
    reverse_aux-IsSorted y (z ∷ l) acc f s = reverse_aux-IsSorted z l (y ∷ acc) f.1 (f.0, s)

    reverse-IsSorted : (l : List A) → Falls l → IsSorted (reverse l)
    reverse-IsSorted [] f = tt
    reverse-IsSorted (y ∷ l) f = reverse_aux-IsSorted y l [] f tt

    -- With a test that is asymmetric the result has no two neighbours out of order.
    pub insertion_sort-IsSorted : (xs : List A) → IsSorted (insertion_sort xs)
    unfolding insertion_sort
    insertion_sort-IsSorted xs = reverse-IsSorted _ (Falls-sort_onto [] xs tt)

    -- With a test that is asymmetric the sort gives the items, each as often as it occurs, with no two
    -- neighbours out of order.
    pub insertion_sort_lem :
        (xs : List A) → Perm (insertion_sort xs) xs × IsSorted (insertion_sort xs)
    insertion_sort_lem xs = (perm-insertion_sort xs, insertion_sort-IsSorted xs)

module _ {ℓ κ} {A : Type ℓ} (less : A → A → Bool) (P : A → Type κ) where
  All-sink : (x : A) (before : List A) → P x → All P before → All P (sink less x before)
  unfolding sink
  All-sink x [] p ps = (p, tt)
  All-sink x (y ∷ before) p ps =
      if-either (All P) (less x y) (y ∷ sink less x before) (x ∷ y ∷ before)
        (ps.0, All-sink x before p ps.1) (p, ps)

  All-sort_onto : (before xs : List A) → All P before → All P xs → All P (sort_onto less before xs)
  unfolding sort_onto
  All-sort_onto before [] ps qs = ps
  All-sort_onto before (x ∷ xs) ps qs =
      All-sort_onto (sink less x before) xs (All-sink x before qs.0 ps) qs.1

  All-reverse_aux : (xs ys : List A) → All P xs → All P ys → All P (reverse_aux xs ys)
  All-reverse_aux [] ys ps qs = qs
  All-reverse_aux (x ∷ xs) ys ps qs = All-reverse_aux xs (x ∷ ys) ps.1 (ps.0, qs)

  -- What holds of all items holds of all the sorted ones.
  pub All-insertion_sort : (xs : List A) → All P xs → All P (insertion_sort less xs)
  unfolding insertion_sort
  All-insertion_sort xs ps =
      All-reverse_aux (sort_onto less [] xs) [] (All-sort_onto [] xs tt ps) tt

module _ {ℓ} {A : Type ℓ} (less : A → A → Bool) (p : A → Bool) where
  any-sink : (x : A) (before : List A) → any p (sink less x before) ≡ (p x || any p before)
  unfolding sink
  any-sink x [] = refl
  any-sink x (y ∷ before) = let i = any-sink x before in ground arith

  any-sort_onto :
      (before xs : List A) → any p (sort_onto less before xs) ≡ (any p before || any p xs)
  unfolding sort_onto
  any-sort_onto before [] = ground arith
  any-sort_onto before (x ∷ xs) =
      let i = any-sort_onto (sink less x before) xs in let j = any-sink x before in ground arith

  any-reverse_aux : (xs ys : List A) → any p (reverse_aux xs ys) ≡ (any p xs || any p ys)
  any-reverse_aux [] ys = refl
  any-reverse_aux (x ∷ xs) ys = let i = any-reverse_aux xs (x ∷ ys) in ground arith

  -- A sorted list has an item that passes exactly if the list has one.
  pub any-insertion_sort : (xs : List A) → any p (insertion_sort less xs) ≡ any p xs
  unfolding insertion_sort
  any-insertion_sort xs =
      let i = any-reverse_aux (sort_onto less [] xs) [] in
      let j = any-sort_onto [] xs in ground arith
