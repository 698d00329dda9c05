-- ===== src/Prelude/Digits.antt =====
-- Digits are read back: the laws of `put_digits` under the readers of `strconv` and `strings`.
use Prim.Native.Char.{Char, code}
use Prim.Native.Nat.{ℕ, zero, suc, ◌+◌, ◌-◌, ◌*◌, ◌/◌, ◌%◌, ◌^◌, ◌<◌}
use Prim.Native.String.{String}
use mathlib.Core.Path.{◌≡◌, refl, sym, ap, ◌∙◌}
use mathlib.Core.Logic.{inl, inr}
use mathlib.Core.Bool.{true, false, ◌&&◌}
use native.Mathlib.Omega.{arith}
use homedash.Prelude.Tests.{ltb, leb, ◌==◌, ltb→lt, if-either, Bool-cases}
use homedash.Prelude.Text.{is_space, trim_left, trim_right, digits, unsigned, in_range, atoi}
use homedash.Prelude.Decimal.{digit, put_digits, split_comma}

-- What a digit is not: a comma, a sign, a space.
pub record Digit (c : Char) (d : ℕ) : Type 0 where
  pub value : code c ≡ 48 + d
  pub visible : is_space c ≡ false

too_big : {n : ℕ} → ¬ (suc (suc (suc (suc (suc (suc (suc (suc (suc (suc n))))))))) < 10)
too_big h = omega arith

digit-Digit : (d : ℕ) → d < 10 → Digit (digit d) d
unfolding digit is_space
digit-Digit zero h = record { value = refl; visible = refl }
digit-Digit (suc zero) h = record { value = refl; visible = refl }
digit-Digit (suc (suc zero)) h = record { value = refl; visible = refl }
digit-Digit (suc (suc (suc zero))) h = record { value = refl; visible = refl }
digit-Digit (suc (suc (suc (suc zero)))) h = record { value = refl; visible = refl }
digit-Digit (suc (suc (suc (suc (suc zero))))) h = record { value = refl; visible = refl }
digit-Digit (suc (suc (suc (suc (suc (suc zero)))))) h = record { value = refl; visible = refl }
digit-Digit (suc (suc (suc (suc (suc (suc (suc zero))))))) h = record {
  value = refl;
  visible = refl;
}
digit-Digit (suc (suc (suc (suc (suc (suc (suc (suc zero)))))))) h = record {
  value = refl;
  visible = refl;
}
digit-Digit (suc (suc (suc (suc (suc (suc (suc (suc (suc zero))))))))) h = record {
  value = refl;
  visible = refl;
}
digit-Digit (suc (suc (suc (suc (suc (suc (suc (suc (suc (suc n)))))))))) h = absurd (too_big h)

last-Digit : (n : ℕ) → Digit (digit (n % 10)) (n % 10)
last-Digit n = digit-Digit (n % 10) (omega arith)

-- A digit in front of a text is read, and neither trimmed nor split off.
module _ (c : Char) (d : ℕ) (k : Digit c d) (h : d < 10) (s : String) where
  digits-digit : (m : ℕ) → digits m (String.◌∷◌ c s) ≡ digits (m * 10 + d) s
  unfolding digits
  digits-digit m =
      let v = k.value in
      let e : (m * 10 + (48 + d - 48)) ≡ m * 10 + d = omega arith in
      let t : (leb 48 (48 + d) && leb (48 + d) 57) ≡ true = ground arith in rw (v, t, e) refl

  split-digit : split_comma (String.◌∷◌ c s) ≡ (String.◌∷◌ c ((split_comma s).0), (split_comma s).1)
  unfolding split_comma
  split-digit = let v = k.value in rw v (ground arith)

  trim_left-digit : trim_left (String.◌∷◌ c s) ≡ String.◌∷◌ c s
  unfolding trim_left
  trim_left-digit = rw (k.visible) refl

  trim_right-digit : trim_right (String.◌∷◌ c s) ≡ String.◌∷◌ c (trim_right s)
  unfolding trim_right
  trim_right-digit = let v = k.visible in ground arith

small : (n : ℕ) → ltb n 10 ≡ true → 0 * 10 + n % 10 ≡ n
small n e = omega (arith, ltb→lt n 10 e)

below : (fuel n : ℕ) → n < 10 ^ suc fuel → n / 10 < 10 ^ fuel
below fuel n h = omega arith

pub digits-put :
    (fuel n : ℕ) (rest : String) → n < 10 ^ fuel → digits 0 (put_digits fuel n rest) ≡ digits n rest
unfolding put_digits
digits-put zero n rest h = let e : n ≡ 0 = omega arith in rw e refl
digits-put (suc fuel) n rest h =
    let higher = digits-put fuel (n / 10) (String.◌∷◌ (digit (n % 10)) rest) (below fuel n h) in
    let d = last-Digit n in
    let one = digits-digit (digit (n % 10)) (n % 10) d (omega arith) rest in
    elim (Bool-cases (ltb n 10)) [
      | inl e ↦ rw (e) (one 0 ∙ ap (λ (m : ℕ). digits m rest) (small n e))
      | inr e ↦ rw (e) (higher ∙ one (n / 10) ∙ ap (λ (m : ℕ). digits m rest) (omega arith))
    ]

pub split-put :
    (fuel n : ℕ) (rest : String)
    → split_comma (put_digits fuel n rest)
      ≡ (put_digits fuel n ((split_comma rest).0), (split_comma rest).1)
unfolding put_digits
split-put zero n rest = refl
split-put (suc fuel) n rest =
    let higher = split-put fuel (n / 10) (String.◌∷◌ (digit (n % 10)) rest) in
    let one = split-digit (digit (n % 10)) (n % 10) (last-Digit n) (omega arith) rest in
    elim (Bool-cases (ltb n 10)) [ inl e ↦ rw (e) one | inr e ↦ rw (e) (higher ∙ rw (one) refl) ]

pub trim_right-put :
    (fuel n : ℕ) (rest : String)
    → trim_right (put_digits fuel n rest) ≡ put_digits fuel n (trim_right rest)
unfolding put_digits
trim_right-put zero n rest = refl
trim_right-put (suc fuel) n rest =
    let higher = trim_right-put fuel (n / 10) (String.◌∷◌ (digit (n % 10)) rest) in
    let one = trim_right-digit (digit (n % 10)) (n % 10) (last-Digit n) (omega arith) rest in
    elim (Bool-cases (ltb n 10)) [ inl e ↦ rw (e) one | inr e ↦ rw (e) (higher ∙ rw (one) refl) ]

-- A text that begins with a digit.
pub record Starts (s : String) : Type 0 where
  pub first : Char
  pub rest : String
  pub value : ℕ
  pub whole : s ≡ String.◌∷◌ first rest
  pub is_digit : Digit first value
  pub small : value < 10

put-Starts :
    (fuel n : ℕ) (c : Char) (d : ℕ) (rest : String)
    → Digit c d
    → d < 10
    → Starts (put_digits fuel n (String.◌∷◌ c rest))
unfolding put_digits
put-Starts zero n c d rest k h = record {
  first = c;
  rest = rest;
  value = d;
  whole = refl;
  is_digit = k;
  small = h;
}
put-Starts (suc fuel) n c d rest k h =
    let s = String.◌∷◌ c rest in
    let last = digit (n % 10) in
    if-either Starts (ltb n 10) (String.◌∷◌ last s) (put_digits fuel (n / 10) (String.◌∷◌ last s))
      (record {
        first = last;
        rest = s;
        value = n % 10;
        whole = refl;
        is_digit = last-Digit n;
        small = omega arith;
      })
      (put-Starts fuel (n / 10) last (n % 10) s (last-Digit n) (omega arith))

-- There is a digit where there is fuel.
pub put_some-Starts : (fuel n : ℕ) (rest : String) → Starts (put_digits (suc fuel) n rest)
unfolding put_digits
put_some-Starts fuel n rest =
    let last = digit (n % 10) in
    if-either Starts (ltb n 10) (String.◌∷◌ last rest)
      (put_digits fuel (n / 10) (String.◌∷◌ last rest))
      (record {
        first = last;
        rest = rest;
        value = n % 10;
        whole = refl;
        is_digit = last-Digit n;
        small = omega arith;
      })
      (put-Starts fuel (n / 10) last (n % 10) rest (last-Digit n) (omega arith))

module _ (s : String) (k : Starts s) where
  pub trim_left-Starts : trim_left s ≡ s
  trim_left-Starts =
      ap trim_left (k.whole)
      ∙ trim_left-digit (k.first) (k.value) (k.is_digit) (k.small) (k.rest)
      ∙ sym (k.whole)

  pub atoi-Starts : atoi s ≡ in_range false (digits 0 s)
  unfolding atoi unsigned
  atoi-Starts =
      let w = k.whole in
      let v = k.is_digit.value in
      let l = k.small in
      let a : (48 + k.value == 45) ≡ false = ground arith in
      let b : (48 + k.value == 43) ≡ false = ground arith in rw (w, v, a, b) refl

  pub atoi-minus : atoi (String.◌∷◌ "-" s) ≡ in_range true (digits 0 s)
  unfolding atoi unsigned
  atoi-minus = let w = k.whole in rw (w) refl
