-- ===== src/Prelude/Order.antt =====
-- `<` on texts is asymmetric, so a sort by it leaves no neighbours out of order.
use Prim.Native.Char.{code}
use Prim.Native.Nat.{ℕ, Ordering, compare as compare_ℕ}
use Prim.Native.String.{String, compare, then}
use Prim.Native.String.compare
use mathlib.Core.Path.{◌≡◌}
use mathlib.Core.Bool.{true, false}
use native.Mathlib.Omega.{arith}
use homedash.Prelude.Tests.{str_lt}

abbrev flip : Ordering → Ordering
flip Ordering.lt = Ordering.gt
flip Ordering.eq = Ordering.eq
flip Ordering.gt = Ordering.lt

then-flip :
    (m n : ℕ) (p q : Ordering) → q ≡ flip p → then (compare_ℕ n m) q ≡ flip (then (compare_ℕ m n) p)
then-flip m n p q e = ground arith

compare-flip : (s t : String) → compare t s ≡ flip (compare s t)
compare-flip String.[] String.[] = rw compare.nil-nil
compare-flip String.[] (String.◌∷◌ d t) = rw (compare.nil-cons d t, compare.cons-nil d t)
compare-flip (String.◌∷◌ c s) String.[] = rw (compare.nil-cons c s, compare.cons-nil c s)
compare-flip (String.◌∷◌ c s) (String.◌∷◌ d t) =
    rw (compare.cons-cons c d s t, compare.cons-cons d c t s)
      (then-flip (code c) (code d) (compare s t) (compare t s) (compare-flip s t))

pub str_lt_asymm : (s t : String) → str_lt s t ≡ true → str_lt t s ≡ false
str_lt_asymm s t h = ground (arith, compare-flip s t)
