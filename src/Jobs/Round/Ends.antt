-- ===== src/Jobs/Round/Ends.antt =====
-- A round of hub/internal/agent/jobs.go ends its job, whatever the machine answers, as long as its
-- context lives to the end, and else does not.
use homedash.Prelude.{ℕ, ◌≡◌, Bool, true, false, ◌==◌, All, map}
use homedash.Jobs.{is_running}
use homedash.Jobs.Table.{Table}
use homedash.Jobs.Round.{Trace}

-- No row of the id runs.
abbrev pub Ended : ℕ → Table → Type 0
Ended id = All (λ j. (j.id == id) ≡ true → is_running j.state ≡ false)

-- As a record, so that `if-either` sees which trace it is about.
record Over (id : ℕ) (t : Trace) : Type 0 where
  ended : Ended id t.jobs

-- What a round leaves of a table, by whether its context lives when it ends: no row with the job's id
-- is running, or every row has the state that it had.
abbrev pub Leaves : Bool → ℕ → Table → Table → Type 0
Leaves true id before after = Ended id after
Leaves false id before after = map (λ j. j.state) after ≡ map (λ j. j.state) before
