-- ===== src/Prelude/Marks.antt =====
-- Marks on ids: lists of numbers without a repeat, and what taking one mark off does.
use Prim.Native.Nat.{ℕ}
use mathlib.Core.Path.{◌≡◌, refl}
use mathlib.Core.Bool.{Bool, true, false, not, ◌&&◌}
use mathlib.Core.List.{List, [], ◌∷◌}
use native.Mathlib.Omega.{arith}
use homedash.Prelude.Tests.{if◌then◌else◌, ◌==◌, ==_iff}
use homedash.Prelude.Lists.{any, keep}

abbrev pub distinct : List ℕ → Bool
distinct [] = true
distinct (x ∷ xs) = not (any (λ y. y == x) xs) && distinct xs

-- One of the marks of the id comes off.
abbrev pub remove_one : ℕ → List ℕ → List ℕ
remove_one id [] = []
remove_one id (x ∷ xs) = if x == id then xs else x ∷ remove_one id xs

pub keep-absent :
    (id : ℕ) (xs : List ℕ) → any (λ y. y == id) xs ≡ false → keep (λ x. not (x == id)) xs ≡ xs
keep-absent id [] e = refl
keep-absent id (x ∷ xs) e = let i = keep-absent id xs in ground arith

pub remove_one-keep :
    (id : ℕ) (xs : List ℕ) → distinct xs ≡ true → keep (λ x. not (x == id)) xs ≡ remove_one id xs
remove_one-keep id [] d = refl
remove_one-keep id (x ∷ xs) d =
    let i = remove_one-keep id xs in
    let k = keep-absent id xs in let e = (==_iff x id).0 in ground arith

pub any-keep-absent :
    (y id : ℕ) (xs : List ℕ)
    → any (λ z. z == y) xs ≡ false
    → any (λ z. z == y) (keep (λ x. not (x == id)) xs) ≡ false
any-keep-absent y id [] e = refl
any-keep-absent y id (x ∷ xs) e = let i = any-keep-absent y id xs in ground arith

pub distinct-keep :
    (id : ℕ) (xs : List ℕ) → distinct xs ≡ true → distinct (keep (λ x. not (x == id)) xs) ≡ true
distinct-keep id [] d = refl
distinct-keep id (x ∷ xs) d =
    let i = distinct-keep id xs in let a = any-keep-absent x id xs in ground arith
