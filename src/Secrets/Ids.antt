-- ===== src/Secrets/Ids.antt =====
-- hub/internal/store/secrets.go: the column of grants, written by `SetSecret` and read by `parseIDs`.
use homedash.Prelude.{
  ℕ, suc, ◌<◌, ◌-◌, String, true, false, ◌&&◌, some, List, [], ◌∷◌, leb, ◌==◌, ◌≡◌, refl, ap, arith,
  lt→ltb,
}
use Prim.Native.Nat.{◌^◌, ◌≤◌}
use homedash.Prelude.Int.{ℤ, pos, negsuc}
use homedash.Prelude.Lists.{All}
use homedash.Prelude.Text.{
  is_space, is_empty, trim_space, trim_left, trim_right, digits, in_range, atoi,
}
use homedash.Prelude.Decimal.{put_digits, put_int, join_ids, split_comma}
use homedash.Prelude.Digits.{
  split-put, trim_right-put, digits-put, put_some-Starts, trim_left-Starts, atoi-Starts, atoi-minus,
}
use homedash.Secrets.{add_number, numbers, parse_ids}

-- An `int64`.
abbrev pub IsInt64 : ℤ → Type 0
IsInt64 (pos n) = n < 2 ^ 63
IsInt64 (negsuc n) = n < 2 ^ 63

number_text : (n : ℕ) → n ≤ 2 ^ 63 → digits 0 (put_digits 20 n "") ≡ some n
unfolding digits
number_text n h = digits-put 20 n "" (omega arith)

trim-digits : (n : ℕ) → trim_space (put_digits 20 n "") ≡ put_digits 20 n ""
unfolding trim_space trim_right
trim-digits n =
    let s = trim_left-Starts (put_digits 20 n "") (put_some-Starts 19 n "") in
    rw (s) (trim_right-put 20 n "")

-- A sign is no space.
trim-minus :
    (n : ℕ) → trim_space (String.◌∷◌ "-" (put_digits 20 n "")) ≡ String.◌∷◌ "-" (put_digits 20 n "")
unfolding trim_space trim_right trim_left is_space
trim-minus n =
    let r = trim_right-put 20 n "" in
    let a : (is_empty (put_digits 20 n "") && false) ≡ false = ground arith in rw (r) (rw (a) refl)

atoi-put_int : (z : ℤ) → IsInt64 z → atoi (trim_space (put_int z "")) ≡ some z
unfolding put_int in_range
atoi-put_int (pos n) h =
    let t = trim-digits n in
    let a = atoi-Starts (put_digits 20 n "") (put_some-Starts 19 n "") in
    let d = number_text n (omega arith) in let l = lt→ltb n (2 ^ 63) h in rw (t, a, d) (rw (l) refl)
atoi-put_int (negsuc n) h =
    let t = trim-minus (suc n) in
    let a = atoi-minus (put_digits 20 (suc n) "") (put_some-Starts 19 (suc n) "") in
    let d = number_text (suc n) (omega arith) in
    let l : (leb (suc n) (2 ^ 63)) ≡ true = ground arith in
    let z : (suc n == 0) ≡ false = ground arith in
    let e : (suc n - 1) ≡ n = omega arith in rw (t, a, d) (rw (z, l, e) refl)

-- The pieces of a join: the first number, then the pieces of the rest.
split-put_int :
    (z : ℤ) (rest : String)
    → split_comma (put_int z rest) ≡ (put_int z ((split_comma rest).0), (split_comma rest).1)
unfolding put_int split_comma
split-put_int (pos n) rest = split-put 20 n rest
split-put_int (negsuc n) rest = rw (split-put 20 (suc n) rest) refl

-- The grants that SetSecret writes to its column, all in the range of an int64, are those that
-- parseIDs reads from it.
pub parse_ids-join_ids : (hosts : List ℤ) → All IsInt64 hosts → parse_ids (join_ids hosts) ≡ hosts
unfolding parse_ids join_ids split_comma numbers add_number trim_space trim_left trim_right atoi
parse_ids-join_ids [] _ = refl
parse_ids-join_ids (h ∷ []) (k, _) =
    let s = split-put_int h "" in let a = atoi-put_int h k in rw (s, a) refl
parse_ids-join_ids (h ∷ g ∷ hs) (k, ks) =
    let s = split-put_int h (String.◌∷◌ "," (join_ids (g ∷ hs))) in
    let a = atoi-put_int h k in
    let i = parse_ids-join_ids (g ∷ hs) ks in rw (s, a) (ap (λ ns. h ∷ ns) i)
