-- ===== src/Prelude/Text.antt =====
-- What the hub uses of Go's `strings` and `strconv`, over the native texts.
use Prim.Native.Char.{Char, code}
use Prim.Native.Nat.{ℕ, ◌+◌, ◌-◌, ◌*◌, ◌^◌}
use Prim.Native.String.{String}
use mathlib.Core.Path.{◌≡◌, refl}
use mathlib.Core.Bool.{Bool, true, false, ◌&&◌, ◌||◌}
use mathlib.Core.Option.{Option, none, some}
use mathlib.Core.List.{List, [], ◌∷◌}
use homedash.Prelude.Tests.{ltb, leb, ◌==◌, if◌then◌else◌}
use homedash.Prelude.Int.{ℤ, pos, negsuc}

-- `unicode.IsSpace`.
unfoldable pub is_space : Char → Bool
is_space ch =
    let c = code ch in
    (leb 9 c && leb c 13)
    || c == 32
    || c == 0x85
    || c == 0xa0
    || c == 0x1680
    || (leb 0x2000 c && leb c 0x200a)
    || c == 0x2028
    || c == 0x2029
    || c == 0x202f
    || c == 0x205f
    || c == 0x3000

unfoldable pub trim_left : String → String
trim_left String.[] = ""
trim_left (String.◌∷◌ c s) = let rest = trim_left s in if is_space c then rest else String.◌∷◌ c s

abbrev pub is_empty : String → Bool
is_empty String.[] = true
is_empty (String.◌∷◌ c s) = false

unfoldable pub trim_right : String → String
trim_right String.[] = ""
trim_right (String.◌∷◌ c s) =
    let rest = trim_right s in if is_empty rest && is_space c then "" else String.◌∷◌ c rest

-- `strings.TrimSpace`.
unfoldable pub trim_space : String → String
unfolding is_space trim_left trim_right
trim_space s = trim_right (trim_left s)

-- `strings.CutPrefix`: what follows the prefix, if the text begins with it.
unfoldable pub cut_prefix : String → String → Option String
cut_prefix s String.[] = some s
cut_prefix String.[] (String.◌∷◌ d t) = none
cut_prefix (String.◌∷◌ c s) (String.◌∷◌ d t) =
    let rest = cut_prefix s t in if code c == code d then rest else none

unfoldable pub has_prefix : String → String → Bool
unfolding cut_prefix
has_prefix s t = elim (cut_prefix s t) [ none ↦ false | some rest ↦ true ]

-- What follows the last occurrence of `t` in `s`: `s[strings.LastIndex(s, t)+len(t):]`.
unfoldable pub after_last : String → String → Option String
unfolding cut_prefix
after_last String.[] t = cut_prefix "" t
after_last (String.◌∷◌ c s) t = elim (after_last s t) [
  | some rest ↦ some rest
  | none ↦ cut_prefix (String.◌∷◌ c s) t
]

-- What stands before the first occurrence of `t` in `s`: `s[:strings.Index(s, t)]`.
unfoldable pub before_first : String → String → Option String
unfolding has_prefix
before_first String.[] t = if has_prefix "" t then some "" else none
before_first (String.◌∷◌ c s) t =
    let rest = before_first s t in
    if has_prefix (String.◌∷◌ c s) t
    then some ""
    else elim rest [ none ↦ none | some r ↦ some (String.◌∷◌ c r) ]

-- The digits of `strconv.Atoi`, with the value read so far.
unfoldable pub digits : ℕ → String → Option ℕ
digits n String.[] = some n
digits n (String.◌∷◌ ch s) =
    let c = code ch in
    let rest = digits (n * 10 + (c - 48)) s in if leb 48 c && leb c 57 then rest else none

unfoldable pub unsigned : String → Option ℕ
unfolding digits
unsigned String.[] = none
unsigned s = digits 0 s

-- A 64-bit `int`: out of range is an error.
unfoldable pub in_range : Bool → Option ℕ → Option ℤ
in_range neg none = none
in_range false (some n) = if ltb n (2 ^ 63) then some (pos n) else none
in_range true (some n) =
    if n == 0 then some (pos 0) else if leb n (2 ^ 63) then some (negsuc (n - 1)) else none

-- `strconv.Atoi`.
unfoldable pub atoi : String → Option ℤ
unfolding unsigned in_range
atoi String.[] = none
atoi (String.◌∷◌ c s) =
    if code c == 45
    then in_range true (unsigned s)
    else if code c == 43
    then in_range false (unsigned s)
    else in_range false (unsigned (String.◌∷◌ c s))

-- `strings.Contains`.
unfoldable pub contains_text : String → String → Bool
unfolding has_prefix
contains_text String.[] t = has_prefix "" t
contains_text (String.◌∷◌ c s) t = has_prefix (String.◌∷◌ c s) t || contains_text s t

add_word : String → List String → List String
add_word w ws = if is_empty w then ws else w ∷ ws

-- The word that the text begins in, and the words after it.
words_from : String → String × List String
unfolding is_space add_word
words_from String.[] = ("", [])
words_from (String.◌∷◌ c s) =
    let (w, ws) = words_from s in if is_space c then ("", add_word w ws) else (String.◌∷◌ c w, ws)

-- `strings.Fields`.
unfoldable pub fields : String → List String
unfolding words_from add_word
fields s = let (w, ws) = words_from s in add_word w ws

trim_test : trim_space "  a b\n" ≡ "a b"
unfolding trim_space
trim_test = refl

atoi_test : atoi "-12" ≡ some (negsuc 11)
unfolding atoi
atoi_test = refl

after_last_test : after_last "a::b::c" "::" ≡ some "c"
unfolding after_last
after_last_test = refl

before_first_test : before_first "ab::c::" "::" ≡ some "ab"
unfolding before_first
before_first_test = refl

fields_test : fields "  sudo rm\t-r /x " ≡ "sudo" ∷ "rm" ∷ "-r" ∷ "/x" ∷ []
unfolding fields
fields_test = refl

contains_text_test : contains_text "a/etc/ssh/b" "/etc/ssh/" ≡ true
unfolding contains_text
contains_text_test = refl
