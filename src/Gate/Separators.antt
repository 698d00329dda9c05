-- ===== src/Gate/Separators.antt =====
-- hub/internal/gate/gate.go: a command stands before the gate wherever it is in the line.
use Prim.Native.Char.{Char}
use homedash.Prelude.{
  ◌≡◌, refl, ap, ◌∙◌, String, Bool, true, false, ◌||◌, Option, none, some, List, [], ◌∷◌, ◌++◌,
  if◌then◌else◌, arith,
}
use homedash.Gate.{check_on, check_segment, first_reason}
use homedash.Gate.Words.{segments, split_from, is_double, is_separator, onto_first}

-- Two commands in one line.
abbrev pub semicolon : String → String → String
semicolon String.[] b = String.◌∷◌ ";" b
semicolon (String.◌∷◌ c a) b = String.◌∷◌ c (semicolon a b)

Nonempty : List String → Type 0
Nonempty ys = (y : String) × (rest : List String) × (ys ≡ y ∷ rest)

onto_first-Nonempty : (c : Char) (ys : List String) → Nonempty (onto_first c ys)
unfolding Nonempty
onto_first-Nonempty c [] = (String.◌∷◌ c "", [], refl)
onto_first-Nonempty c (y ∷ ys) = (String.◌∷◌ c y, ys, refl)

split_from-Nonempty : (skip : Bool) (s : String) → Nonempty (split_from skip s)
unfolding split_from Nonempty
split_from-Nonempty skip String.[] = ("", [], refl)
split_from-Nonempty true (String.◌∷◌ c s) = split_from-Nonempty false s
split_from-Nonempty false (String.◌∷◌ c s) =
    let rest = split_from (is_double c s) s in
    elim (is_double c s || is_separator c)
      as (λ k. Nonempty (if k then "" ∷ rest else onto_first c rest)) [
        | true ↦ ("", rest, refl)
        | false ↦ onto_first-Nonempty c rest
      ]

join-step :
    (k : Bool) (c : Char) (xs ys zs : List String)
    → xs ≡ ys ++ zs
    → Nonempty ys
    → (if k then "" ∷ xs else onto_first c xs) ≡ (if k then "" ∷ ys else onto_first c ys) ++ zs
unfolding Nonempty
join-step true c xs ys zs e n = ap (λ l. "" ∷ l) e
join-step false c xs ys zs e (y, rest, n) = rw (e, n) refl

split-join :
    (skip : Bool) (c : Char) (s b : String)
    → split_from skip (semicolon (String.◌∷◌ c s) b)
      ≡ split_from skip (String.◌∷◌ c s) ++ split_from false b
unfolding split_from
split-join true c String.[] b = refl
split-join true c (String.◌∷◌ d s) b = split-join false d s b
split-join false c String.[] b = ground arith
split-join false c (String.◌∷◌ d s) b =
    let k = is_double c (String.◌∷◌ d s) in
    join-step (k || is_separator c) c (split_from k (semicolon (String.◌∷◌ d s) b))
      (split_from k (String.◌∷◌ d s)) (split_from false b) (split-join k d s b)
      (split_from-Nonempty k (String.◌∷◌ d s))

segments-semicolon : (a b : String) → segments (semicolon a b) ≡ segments a ++ segments b
unfolding segments split_from
segments-semicolon String.[] b = refl
segments-semicolon (String.◌∷◌ c a) b = split-join false c a b

abbrev pub is_refused : Option String → Bool
is_refused none = false
is_refused (some why) = true

-- Whether a command of the line is refused for what it runs.
abbrev pub runs_refused : Option (List String) → String → Bool
runs_refused system command = is_refused (first_reason (check_segment system) (segments command))

first_reason-append :
    (p : String → Option String) (xs ys : List String)
    → is_refused (first_reason p (xs ++ ys))
      ≡ (is_refused (first_reason p xs) || is_refused (first_reason p ys))
unfolding first_reason
first_reason-append p [] ys = refl
first_reason-append p (x ∷ xs) ys = ground (arith, first_reason-append p xs ys)

check_on-runs :
    (system : Option (List String)) (command : String)
    → runs_refused system command ≡ true
    → is_refused (check_on system command) ≡ true
unfolding check_on
check_on-runs system command e = ground arith

-- A command that is refused for what it runs is refused in a longer line too, before a semicolon or
-- after one, whatever stands on the other side.
pub refused_beside :
    (system : Option (List String)) (a b : String)
    → (runs_refused system a || runs_refused system b) ≡ true
    → is_refused (check_on system (semicolon a b)) ≡ true
refused_beside system a b e = check_on-runs system (semicolon a b) (
    rw (segments-semicolon a b)
      (first_reason-append (check_segment system) (segments a) (segments b) ∙ e))
