-- ===== src/Pool/Meter/Lines.antt =====
-- hub/internal/pool/meter.go: the counts of a stream by its lines, whatever pieces it is read in.
use homedash.Prelude.{
  ℕ, ◌≡◌, refl, sym, ap, ◌∙◌, true, false, Option, List, [], ◌∷◌, ◌++◌, leb, ◌==◌, if◌then◌else◌,
  length, length-append, Bool-cases, inl, inr, arith,
}
use mathlib.Core.List.{append_assoc, append-nil}
use homedash.Pool.Meter.{
  Counts, Meter, max_line, trim_bytes, payload, count_line, flush, read_byte, read_bytes, read_all,
  fresh_meter,
}

-- The lines of a stream, the last of them what follows the last newline.
abbrev pub onto_line : ℕ → List (List ℕ) → List (List ℕ)
onto_line c [] = (c ∷ []) ∷ []
onto_line c (l ∷ ls) = (c ∷ l) ∷ ls

unfoldable pub split_lines : List ℕ → List (List ℕ)
split_lines [] = [] ∷ []
split_lines (c ∷ cs) = let rest = split_lines cs in if c == 10 then [] ∷ rest else onto_line c rest

-- The counts by the lines: a line of more than a megabyte is passed over.
abbrev pub count_short : (List ℕ → Option Counts) → List ℕ → ℕ × ℕ → ℕ × ℕ
count_short json line old = if leb (length line) max_line then count_line json line old else old

unfoldable pub count_lines : (List ℕ → Option Counts) → List (List ℕ) → ℕ × ℕ → ℕ × ℕ
count_lines json [] old = old
count_lines json (l ∷ ls) old = count_lines json ls (count_short json l old)

abbrev pub concat : List (List ℕ) → List ℕ
concat [] = []
concat (x ∷ xs) = x ++ concat xs

read_bytes-append :
    (json : List ℕ → Option Counts) (m : Meter) (xs ys : List ℕ)
    → read_bytes json m (xs ++ ys) ≡ read_bytes json (read_bytes json m xs) ys
unfolding read_bytes
read_bytes-append json m [] ys = refl
read_bytes-append json m (x ∷ xs) ys = read_bytes-append json (read_byte json m x) xs ys

read_all-concat :
    (json : List ℕ → Option Counts) (m : Meter) (chunks : List (List ℕ))
    → read_all json m chunks ≡ flush json (read_bytes json m (concat chunks))
unfolding read_all read_bytes
read_all-concat json m [] = refl
read_all-concat json m (x ∷ xs) =
    read_all-concat json (read_bytes json m x) xs
    ∙ ap (flush json) (sym (read_bytes-append json m x (concat xs)))

-- The meter when `whole` of a line has passed.
abbrev at_line : List ℕ → ℕ × ℕ → Meter
at_line whole old =
    if leb (length whole) max_line
    then record { line = whole; skip = false; totals = old }
    else record { line = []; skip = true; totals = old }

abbrev with_head : List ℕ → List (List ℕ) → List (List ℕ)
with_head whole [] = whole ∷ []
with_head whole (l ∷ ls) = (whole ++ l) ∷ ls

with_head-onto_line :
    (whole : List ℕ) (c : ℕ) (ls : List (List ℕ))
    → with_head (whole ++ c ∷ []) ls ≡ with_head whole (onto_line c ls)
with_head-onto_line whole c [] = refl
with_head-onto_line whole c (l ∷ ls) = ap (λ x. x ∷ ls) (append_assoc whole (c ∷ []) l)

flush-at_line :
    (json : List ℕ → Option Counts) (whole : List ℕ) (old : ℕ × ℕ)
    → flush json (at_line whole old) ≡ at_line [] (count_short json whole old)
unfolding flush count_line trim_bytes payload
flush-at_line json whole old = elim (Bool-cases (leb (length whole) max_line)) [
  | inl e ↦ rw (e) refl
  | inr e ↦ rw (e) refl
]

read_byte-at_line :
    (json : List ℕ → Option Counts) (whole : List ℕ) (old : ℕ × ℕ) (c : ℕ)
    → (c == 10) ≡ false
    → read_byte json (at_line whole old) c ≡ at_line (whole ++ c ∷ []) old
unfolding read_byte
read_byte-at_line json whole old c h = let l = length-append whole (c ∷ []) in ground arith

count_lines-with_head :
    (json : List ℕ → Option Counts) (ls : List (List ℕ)) (old : ℕ × ℕ)
    → count_lines json (with_head [] ls) old ≡ count_lines json ls old
unfolding count_lines count_line trim_bytes payload
count_lines-with_head json [] old = refl
count_lines-with_head json (l ∷ ls) old = refl

read_newline :
    (json : List ℕ → Option Counts) (m : Meter) (c : ℕ)
    → (c == 10) ≡ true
    → read_byte json m c ≡ flush json m
unfolding read_byte
read_newline json m c h = rw (h) refl

split_lines-none : split_lines [] ≡ [] ∷ []
unfolding split_lines
split_lines-none = refl

split_lines-newline :
    (c : ℕ) (cs : List ℕ) → (c == 10) ≡ true → split_lines (c ∷ cs) ≡ [] ∷ split_lines cs
unfolding split_lines
split_lines-newline c cs h = rw (h) refl

split_lines-byte :
    (c : ℕ) (cs : List ℕ) → (c == 10) ≡ false → split_lines (c ∷ cs) ≡ onto_line c (split_lines cs)
unfolding split_lines
split_lines-byte c cs h = rw (h) refl

read_bytes-at_line :
    (json : List ℕ → Option Counts) (whole : List ℕ) (old : ℕ × ℕ) (cs : List ℕ)
    → (flush json (read_bytes json (at_line whole old) cs)).totals
      ≡ count_lines json (with_head whole (split_lines cs)) old
unfolding read_bytes count_lines
read_bytes-at_line json whole old [] =
    ap (λ m. m.totals) (flush-at_line json whole old)
    ∙ ap (λ l. count_short json l old) (sym (append-nil whole))
    ∙ ap (λ ls. count_lines json (with_head whole ls) old) (sym split_lines-none)
read_bytes-at_line json whole old (c ∷ cs) = elim (Bool-cases (c == 10)) [
  | inl e ↦
      ap (λ m. (flush json (read_bytes json m cs)).totals)
        (read_newline json (at_line whole old) c e ∙ flush-at_line json whole old)
      ∙ read_bytes-at_line json [] (count_short json whole old) cs
      ∙ count_lines-with_head json (split_lines cs) (count_short json whole old)
      ∙ ap (λ l. count_lines json (split_lines cs) (count_short json l old))
          (sym (append-nil whole))
      ∙ ap (λ ls. count_lines json (with_head whole ls) old) (sym (split_lines-newline c cs e))
  | inr e ↦
      ap (λ m. (flush json (read_bytes json m cs)).totals) (read_byte-at_line json whole old c e)
      ∙ read_bytes-at_line json (whole ++ c ∷ []) old cs
      ∙ ap (λ ls. count_lines json ls old)
          (with_head-onto_line whole c (split_lines cs)
            ∙ ap (with_head whole) (sym (split_lines-byte c cs e)))
]

-- Whatever pieces a stream is read in, the meter ends with the counts of its lines, in their order, each
-- line of at most a megabyte taking the place of the counts before it where it has counts.
pub read_all-count_lines :
    (json : List ℕ → Option Counts) (chunks : List (List ℕ))
    → (read_all json fresh_meter chunks).totals
      ≡ count_lines json (split_lines (concat chunks)) (0, 0)
read_all-count_lines json chunks =
    ap (λ m. m.totals) (read_all-concat json fresh_meter chunks)
    ∙ read_bytes-at_line json [] (0, 0) (concat chunks)
    ∙ count_lines-with_head json (split_lines (concat chunks)) (0, 0)
