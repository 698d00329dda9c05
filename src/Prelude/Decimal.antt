-- ===== src/Prelude/Decimal.antt =====
-- `strconv.FormatInt` in base 10, `strings.Join` and `strings.Split` at a comma, and the way back.
use Prim.Native.Char.{Char, code}
use Prim.Native.Nat.{ℕ, zero, suc, ◌/◌, ◌%◌}
use Prim.Native.String.{String}
use mathlib.Core.List.{List, [], ◌∷◌}
use homedash.Prelude.Tests.{ltb, ◌==◌, if◌then◌else◌}
use homedash.Prelude.Int.{ℤ, pos, negsuc}

unfoldable pub digit : ℕ → Char
digit zero = "0"
digit (suc zero) = "1"
digit (suc (suc zero)) = "2"
digit (suc (suc (suc zero))) = "3"
digit (suc (suc (suc (suc zero)))) = "4"
digit (suc (suc (suc (suc (suc zero))))) = "5"
digit (suc (suc (suc (suc (suc (suc zero)))))) = "6"
digit (suc (suc (suc (suc (suc (suc (suc zero))))))) = "7"
digit (suc (suc (suc (suc (suc (suc (suc (suc zero)))))))) = "8"
digit _ = "9"

-- The digits of a number in front of a text, `fuel` of them at most.
unfoldable pub put_digits : ℕ → ℕ → String → String
unfolding digit
put_digits zero n rest = rest
put_digits (suc fuel) n rest =
    let higher = put_digits fuel (n / 10) (String.◌∷◌ (digit (n % 10)) rest) in
    if ltb n 10 then String.◌∷◌ (digit (n % 10)) rest else higher

-- An `int64` has at most nineteen digits.
unfoldable pub put_int : ℤ → String → String
unfolding put_digits
put_int (pos n) rest = put_digits 20 n rest
put_int (negsuc n) rest = String.◌∷◌ "-" (put_digits 20 (suc n) rest)

-- `strings.Join` of the formatted numbers.
unfoldable pub join_ids : List ℤ → String
unfolding put_int
join_ids [] = ""
join_ids (h ∷ []) = put_int h ""
join_ids (h ∷ g ∷ hs) = put_int h (String.◌∷◌ "," (join_ids (g ∷ hs)))

-- The piece up to the first comma, and the pieces after it.
unfoldable pub split_comma : String → String × List String
split_comma String.[] = ("", [])
split_comma (String.◌∷◌ c s) =
    let (piece, pieces) = split_comma s in
    if code c == 44 then ("", piece ∷ pieces) else (String.◌∷◌ c piece, pieces)
