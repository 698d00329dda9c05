-- ===== src/Jobs/Lifecycle.antt =====
-- Any history of the jobs table: the calls of hub/internal/agent/jobs.go, and the statements that a
-- round makes while it runs and when it ends.
use homedash.Prelude.{ℕ, String, Bool, Option, List, [], ◌∷◌}
use homedash.Hosts.{Host}
use homedash.Jobs.{done, failed, Result, ok, err}
use homedash.Jobs.Table.{Table, end_job, set_session, set_snapshot, set_changes, trim_jobs}
use homedash.Jobs.Control.{Hub, start, correct, kill, rollback, clear}

pub data Call : Type 0 where
  starts : Host → String → String → ℕ → Bool → Bool → Call
  corrects : ℕ → String → ℕ → Call
  kills : ℕ → ℕ → Call
  rolls_back : ℕ → Bool → Option String → Call
  clears : Call
  -- from a round: `end`, and what it records on the way
  completes fails : ℕ → String → String → ℕ → Call
  sets_session sets_snapshot sets_changes : ℕ → String → Call
  trims : ℕ → ℕ → Call

abbrev pub rows_or : Table → Result Table → Table
rows_or rows (ok rows') = rows'
rows_or rows (err e) = rows

unfoldable pub step : Hub → Call → Hub
step hub (starts h cwd text window dials dir) = (start hub h cwd text window dials dir).1
step hub (corrects id text now) = (correct hub id text now).1
step hub (kills id now) = (kill hub id now).1
step hub (rolls_back id dials out) = (rollback hub id dials out).1
step hub clears = (clear hub).1
step hub (completes id report reason now) = record hub {
  jobs = rows_or hub.jobs (end_job id done report reason now hub.jobs);
}
step hub (fails id report reason now) = record hub {
  jobs = rows_or hub.jobs (end_job id failed report reason now hub.jobs);
}
step hub (sets_session id s) = record hub { jobs = set_session id s hub.jobs }
step hub (sets_snapshot id s) = record hub { jobs = set_snapshot id s hub.jobs }
step hub (sets_changes id s) = record hub { jobs = set_changes id s hub.jobs }
step hub (trims host n) = record hub { jobs = (trim_jobs host n hub.jobs).0 }

unfoldable pub run : Hub → List Call → Hub
run hub [] = hub
run hub (c ∷ cs) = run (step hub c) cs
