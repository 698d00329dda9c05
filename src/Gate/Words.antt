-- ===== src/Gate/Words.antt =====
-- hub/internal/gate/gate.go: the regular expressions and the splitting of a command line.
use Prim.Native.Char.{Char, code}
use Prim.Native.String
use homedash.Prelude.{
  ℕ, zero, suc, ◌+◌, ◌-◌, ◌≡◌, refl, String, Bool, true, false, not, ◌&&◌, ◌||◌, Option, none, some,
  List, [], ◌∷◌, leb, ◌==◌, if◌then◌else◌,
}
use homedash.Prelude.Text.{cut_prefix, has_prefix, is_empty}

-- `\s` of a regular expression: tab, newline, form feed, carriage return, blank.
abbrev is_blank : Char → Bool
is_blank ch = let c = code ch in c == 9 || c == 10 || c == 12 || c == 13 || c == 32

unfoldable pub skip_blanks : String → String
skip_blanks String.[] = ""
skip_blanks (String.◌∷◌ c s) =
    let rest = skip_blanks s in if is_blank c then rest else String.◌∷◌ c s

-- `\S*`.
run_of : String → String
run_of String.[] = ""
run_of (String.◌∷◌ c s) = let rest = run_of s in if is_blank c then "" else String.◌∷◌ c rest

abbrev pub begins : ℕ → String → Bool
begins n String.[] = false
begins n (String.◌∷◌ c s) = code c == n

-- Tokens with `\s*` between them.
tokens_at : List String → String → Bool
unfolding skip_blanks
tokens_at [] s = true
tokens_at (t ∷ ts) s = elim (cut_prefix s t) [
  | none ↦ false
  | some rest ↦ tokens_at ts (skip_blanks rest)
]

anywhere : (String → Bool) → String → Bool
anywhere p String.[] = p ""
anywhere p (String.◌∷◌ c s) = p (String.◌∷◌ c s) || anywhere p s

-- `forkBombs`.
unfoldable pub is_fork_bomb : String → Bool
unfolding anywhere tokens_at
is_fork_bomb = anywhere (tokens_at (":()" ∷ "{" ∷ ":" ∷ "|" ∷ ":" ∷ "&" ∷ "}" ∷ ";" ∷ ":" ∷ []))

ssh_redirect_at : String → Bool
ssh_redirect_at s = elim (cut_prefix s ">") [
  | none ↦ false
  | some rest ↦ has_prefix (skip_blanks rest) "/etc/ssh/"
]

-- `redirect`; the second `>` of a `>>` is found as a first one.
unfoldable pub redirects_to_ssh : String → Bool
unfolding anywhere ssh_redirect_at
redirects_to_ssh = anywhere ssh_redirect_at

size : String → ℕ
size String.[] = 0
size (String.◌∷◌ c s) = suc (size s)

-- `/dev/\S+` at the head of a text.
dev_word : String → Option String
unfolding run_of
dev_word s = elim (cut_prefix s "/dev/") [
  | none ↦ none
  | some rest ↦ if is_empty (run_of rest) then none else some (String.◌++◌ "/dev/" (run_of rest))
]

-- One match of `devWrite` at the head: its word, and how many characters it takes.
dev_write_at : String → Option (String × ℕ)
unfolding dev_word size
dev_write_at s = elim (cut_prefix s ">") [
  | none ↦ none
  | some rest ↦
      let after : String = elim (cut_prefix rest ">") [ none ↦ rest | some r ↦ r ] in
      let word = skip_blanks after in
      elim (dev_word word) [ none ↦ none | some w ↦ some (w, (size s - size word) + size w) ]
]

abbrev taken_by : Option (String × ℕ) → ℕ
taken_by none = 0
taken_by (some (w, n)) = n - 1

abbrev listed : Option (String × ℕ) → List String → List String
listed none ws = ws
listed (some (w, n)) ws = w ∷ ws

-- The words of all matches, none within another.
dev_writes_from : ℕ → String → List String
unfolding dev_write_at
dev_writes_from n String.[] = []
dev_writes_from zero (String.◌∷◌ c s) =
    listed (dev_write_at (String.◌∷◌ c s))
      (dev_writes_from (taken_by (dev_write_at (String.◌∷◌ c s))) s)
dev_writes_from (suc n) (String.◌∷◌ c s) = dev_writes_from n s

unfoldable pub dev_writes : String → List String
unfolding dev_writes_from
dev_writes = dev_writes_from 0

abbrev pub is_separator : Char → Bool
is_separator ch = let c = code ch in c == 59 || c == 124 || c == 10

-- `||` or `&&` at the head.
abbrev pub is_double : Char → String → Bool
is_double ch s = let c = code ch in (c == 124 || c == 38) && begins c s

abbrev pub onto_first : Char → List String → List String
onto_first c [] = String.◌∷◌ c "" ∷ []
onto_first c (s ∷ ss) = String.◌∷◌ c s ∷ ss

-- `segment.Split`; `skip`: the second character of a double separator.
unfoldable pub split_from : Bool → String → List String
split_from skip String.[] = "" ∷ []
split_from skip (String.◌∷◌ c s) =
    let rest = split_from (not skip && is_double c s) s in
    if skip then rest else if is_double c s || is_separator c then "" ∷ rest else onto_first c rest

unfoldable pub segments : String → List String
unfolding split_from
segments = split_from false

abbrev is_letter : ℕ → Bool
is_letter c = (leb 65 c && leb c 90) || (leb 97 c && leb c 122) || c == 95

assigns_from : String → Bool
assigns_from String.[] = false
assigns_from (String.◌∷◌ ch s) =
    let c = code ch in
    let rest = assigns_from s in
    if c == 61 then true else (is_letter c || (leb 48 c && leb c 57)) && rest

-- `assignRe`.
unfoldable pub is_assignment : String → Bool
unfolding assigns_from
is_assignment String.[] = false
is_assignment (String.◌∷◌ c s) = is_letter (code c) && assigns_from s

segments_test : segments "a || b;c&&d&" ≡ "a " ∷ " b" ∷ "c" ∷ "d&" ∷ []
unfolding segments
segments_test = refl

dev_writes_test : dev_writes "cat x >> /dev/sda1 >/dev/null" ≡ "/dev/sda1" ∷ "/dev/null" ∷ []
unfolding dev_writes skip_blanks cut_prefix
dev_writes_test = refl

is_fork_bomb_test : is_fork_bomb ":(){ :|:& };:" ≡ true
unfolding is_fork_bomb cut_prefix
is_fork_bomb_test = refl
