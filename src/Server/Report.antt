-- ===== src/Server/Report.antt =====
-- hub/internal/server/health.go: the report says the worst of its lines, and its percentages are in range.
use Prim.Native.Nat.{◌/◌, ◌%◌, ◌^◌, ◌≤◌, ◌<◌}
use homedash.Prelude.{
  ℕ, ◌+◌, ◌-◌, ◌*◌, String, List, [], ◌∷◌, ltb, if◌then◌else◌, any, ◌≡◌, refl, arith, Bool-cases,
  inl, inr,
}
use native.Mathlib.Nat.{div-le_of_le-mul}
use homedash.Server.Health.{
  State, healthy, warn, bad, off, Check, Facts, scan_memory, read_memory, is_bad, is_warn, raised,
  worst_from, checks, report_state,
}

-- What the state of a report is to be.
abbrev pub worst : List Check → State
worst cs =
    if any (λ c. is_bad c.state) cs
    then bad
    else if any (λ c. is_warn c.state) cs
    then warn
    else healthy

raised-bad : (c : State) → raised bad c ≡ bad
unfolding raised
raised-bad healthy = refl
raised-bad warn = refl
raised-bad bad = refl
raised-bad off = refl

raised-warn : (c : State) → raised warn c ≡ (if is_bad c then bad else warn)
unfolding raised
raised-warn healthy = refl
raised-warn warn = refl
raised-warn bad = refl
raised-warn off = refl

raised-healthy :
    (c : State) → raised healthy c ≡ (if is_bad c then bad else if is_warn c then warn else healthy)
unfolding raised
raised-healthy healthy = refl
raised-healthy warn = refl
raised-healthy bad = refl
raised-healthy off = refl

worst_from-bad : (cs : List Check) → worst_from bad cs ≡ bad
unfolding worst_from
worst_from-bad [] = refl
worst_from-bad (c ∷ cs) = let r = raised-bad c.state in let i = worst_from-bad cs in ground arith

worst_from-warn :
    (cs : List Check) → worst_from warn cs ≡ (if any (λ c. is_bad c.state) cs then bad else warn)
unfolding worst_from
worst_from-warn [] = refl
worst_from-warn (c ∷ cs) =
    let r = raised-warn c.state in
    let i = worst_from-warn cs in let b = worst_from-bad cs in ground arith

worst_from-healthy : (cs : List Check) → worst_from healthy cs ≡ worst cs
unfolding worst_from
worst_from-healthy [] = refl
worst_from-healthy (c ∷ cs) =
    let r = raised-healthy c.state in
    let i = worst_from-healthy cs in
    let w = worst_from-warn cs in let b = worst_from-bad cs in ground arith

-- The report is bad where a line is, else it warns where a line does, else it is well, whatever lines
-- there are.
pub report_state-worst : (f : Facts) → report_state f ≡ worst (checks f)
unfolding report_state
report_state-worst f = worst_from-healthy (checks f)

used :
    (total avail : ℕ)
    → avail ≤ total
    → total < 2 ^ 57
    → (total + 2 ^ 64 - avail) % 2 ^ 64 ≡ total - avail
used total avail a t = omega arith

share : (total x : ℕ) → x ≤ total → total < 2 ^ 57 → x * 100 % 2 ^ 64 / total ≤ 100
share total x a t = div-le_of_le-mul total (omega arith)

-- A machine with less than 2 ^ 57 bytes of memory, no more of it available than there is, has no more
-- in use than in all, and the percentage of the memory in use is at most a hundred.
pub read_memory_in_range :
    (lines : List String) (total avail : ℕ)
    → scan_memory lines (0, 0) ≡ (total, avail)
    → avail ≤ total
    → total < 2 ^ 57
    → ((read_memory lines).1 ≤ (read_memory lines).0)
      × ((read_memory lines).1 * 100 % 2 ^ 64 / (read_memory lines).0 ≤ 100)
unfolding read_memory
read_memory_in_range lines total avail e a t = elim (Bool-cases (ltb 0 total)) [
  | inl p ↦
      let u = used total avail a t in
      rw (e, p, u) (omega arith, share total (total - avail) (omega arith) t)
  | inr p ↦ rw (e, p) (omega arith, share 0 0 (omega arith) (omega arith))
]
