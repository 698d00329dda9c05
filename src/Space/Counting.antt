-- ===== src/Space/Counting.antt =====
-- hub/internal/peers/peers.go: the counters of the jobs in flight, and what becomes of them when the
-- hub leaves its space while it serves one.
use homedash.Prelude.{
  String, ◌≡◌, refl, ap, ◌∙◌, Bool, true, false, Option, none, some, if◌then◌else◌, str_eq,
  str_eq_iff,
}
use homedash.Prelude.Int.{ℤ, negsuc, succ_ℤ, pred_ℤ, pred-succ}
use homedash.Space.{Counters, end_job, leave, attach, change_count, count_of}

-- A job that is counted in and then ends.
abbrev pub job_through : String → Counters → Option Counters
job_through peer c = elim (change_count succ_ℤ peer c) [ none ↦ none | some c' ↦ end_job peer c' ]

-- What a peer's count and the total read; none after a panic.
abbrev pub reading : String → Option Counters → Option (ℤ × ℤ)
reading peer none = none
reading peer (some c) = some (count_of peer c, c.total)

change-through :
    (b : Bool) (x : ℤ)
    → (if b then pred_ℤ (if b then succ_ℤ x else x) else (if b then succ_ℤ x else x)) ≡ x
change-through true x = pred-succ x
change-through false x = refl

-- In a space, a job that begins and ends gives back what it took: every peer's count and the total
-- read as they did before.
pub job_through-counted :
    (peer other : String) (counts : String → ℤ) (total : ℤ)
    → reading other (job_through peer (record { serving = some counts; total = total }))
      ≡ some (counts other, total)
unfolding end_job change_count
job_through-counted peer other counts total = ap some (
    ap (λ x. (x, pred_ℤ (succ_ℤ total))) (change-through (str_eq peer other) (counts other))
    ∙ ap (λ t. (counts other, t)) (pred-succ total))

str_eq_refl : (s : String) → str_eq s s ≡ true
str_eq_refl s = (str_eq_iff s s).1 refl

-- A job that was in flight when the hub left its space panics as it ends; if the hub has joined again
-- by then, it leaves the peer with a count of -1 for no job at all.
pub leave_during_job :
    (peer : String) (c : Counters)
    → (reading peer (end_job peer (leave c)) ≡ none)
      × (reading peer (end_job peer (attach (leave c))) ≡ some (negsuc 0, pred_ℤ c.total))
unfolding end_job change_count leave attach
leave_during_job peer c = (refl, rw (str_eq_refl peer) refl)
