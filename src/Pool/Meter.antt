-- ===== src/Pool/Meter.antt =====
-- hub/internal/pool/meter.go: the token counts in an answer that streams by. Bytes are numbers; what
-- JSON makes of a line is an argument. Of Go's white space the bytes of ASCII are here.
pub mod Lines
use homedash.Prelude.{
  ℕ, zero, suc, ◌+◌, ◌-◌, ◌≤◌, ◌<◌, ◌≡◌, refl, sym, ap, ◌∙◌, Bool, true, false, not, ◌&&◌, ◌||◌,
  Option, none, some, List, [], ◌∷◌, ◌++◌, ltb, leb, ◌==◌, if◌then◌else◌, length, length-append,
  any, Bool-cases, inl, inr, arith,
}
use mathlib.Core.List.{append_assoc, append-nil}

-- What is read of a line's object: the counts of Ollama, and those of OpenAI if there is `usage`.
pub record Counts : Type 0 where
  pub prompt_eval : ℕ
  pub eval : ℕ
  pub usage : Option (ℕ × ℕ)

-- `skip`: the line is too long.
pub record Meter : Type 0 where
  pub line : List ℕ
  pub skip : Bool
  pub totals : ℕ × ℕ  -- input, output

-- 1 << 20.
abbrev pub max_line : ℕ
max_line = 1048576

abbrev pub is_blank_byte : ℕ → Bool
is_blank_byte c = (leb 9 c && leb c 13) || c == 32

abbrev pub trim_left_bytes : List ℕ → List ℕ
trim_left_bytes [] = []
trim_left_bytes (c ∷ cs) = let rest = trim_left_bytes cs in if is_blank_byte c then rest else c ∷ cs

abbrev pub onto_trimmed : ℕ → List ℕ → List ℕ
onto_trimmed c [] = if is_blank_byte c then [] else c ∷ []
onto_trimmed c (d ∷ ds) = c ∷ d ∷ ds

abbrev pub trim_right_bytes : List ℕ → List ℕ
trim_right_bytes [] = []
trim_right_bytes (c ∷ cs) = onto_trimmed c (trim_right_bytes cs)

unfoldable pub trim_bytes : List ℕ → List ℕ
trim_bytes cs = trim_right_bytes (trim_left_bytes cs)

-- What follows the prefix.
abbrev pub after_bytes : List ℕ → List ℕ → Option (List ℕ)
after_bytes [] cs = some cs
after_bytes (p ∷ ps) [] = none
after_bytes (p ∷ ps) (c ∷ cs) = let rest = after_bytes ps cs in if p == c then rest else none

abbrev pub begins_with : Option (List ℕ) → Bool
begins_with none = false
begins_with (some rest) = true

abbrev pub contains_bytes : List ℕ → List ℕ → Bool
contains_bytes part [] = begins_with (after_bytes part [])
contains_bytes part (c ∷ cs) = begins_with (after_bytes part (c ∷ cs)) || contains_bytes part cs

abbrev pub or_line : List ℕ → Option (List ℕ) → List ℕ
or_line line none = line
or_line line (some rest) = rest

-- `data:`, `_count` and `"usage"`.
abbrev pub data_mark : List ℕ
data_mark = 100 ∷ 97 ∷ 116 ∷ 97 ∷ 58 ∷ []

abbrev pub count_mark : List ℕ
count_mark = 95 ∷ 99 ∷ 111 ∷ 117 ∷ 110 ∷ 116 ∷ []

abbrev pub usage_mark : List ℕ
usage_mark = 34 ∷ 117 ∷ 115 ∷ 97 ∷ 103 ∷ 101 ∷ 34 ∷ []

unfoldable pub payload : List ℕ → List ℕ
payload line = or_line (trim_bytes line) (after_bytes data_mark (trim_bytes line))

abbrev pub ollama_totals : Counts → ℕ × ℕ → ℕ × ℕ
ollama_totals v old = if ltb 0 (v.prompt_eval + v.eval) then (v.prompt_eval, v.eval) else old

abbrev pub new_totals : Option Counts → ℕ × ℕ → ℕ × ℕ
new_totals none old = old
new_totals (some v) old = elim v.usage [
  | none ↦ ollama_totals v old
  | some u ↦ if ltb 0 (u.0 + u.1) then u else ollama_totals v old
]

-- What a line does to the counts.
unfoldable pub count_line : (List ℕ → Option Counts) → List ℕ → ℕ × ℕ → ℕ × ℕ
count_line json line old =
    if contains_bytes count_mark (payload line) || contains_bytes usage_mark (payload line)
    then new_totals (json (trim_bytes (payload line))) old
    else old

-- `flush`.
unfoldable pub flush : (List ℕ → Option Counts) → Meter → Meter
flush json m = record { line = []; skip = false; totals = count_line json m.line m.totals }

-- One byte of `Read`.
unfoldable pub read_byte : (List ℕ → Option Counts) → Meter → ℕ → Meter
read_byte json m c =
    if c == 10
    then flush json m
    else if m.skip
    then m
    else if leb max_line (length m.line)
    then record m { line = []; skip = true }
    else record m { line = m.line ++ c ∷ [] }

unfoldable pub read_bytes : (List ℕ → Option Counts) → Meter → List ℕ → Meter
read_bytes json m [] = m
read_bytes json m (c ∷ cs) = read_bytes json (read_byte json m c) cs

-- The calls of `Read`, the last of them with the end of the stream.
unfoldable pub read_all : (List ℕ → Option Counts) → Meter → List (List ℕ) → Meter
read_all json m [] = flush json m
read_all json m (chunk ∷ chunks) = read_all json (read_bytes json m chunk) chunks

abbrev pub fresh_meter : Meter
fresh_meter = record { line = []; skip = false; totals = (0, 0) }
