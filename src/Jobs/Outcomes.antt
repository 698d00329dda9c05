-- ===== src/Jobs/Outcomes.antt =====
-- What each call of hub/internal/agent/jobs.go does to the jobs table, on every branch.
use homedash.Prelude.{
  ℕ, ◌≤◌, ◌≡◌, refl, ◌≢◌, String, Bool, true, false, not, ◌||◌, some, [], ◌∷◌, ◌++◌, arith,
  str_eq_iff, all,
}
use homedash.Settings.{setting_int}
use homedash.Hosts.{Host, is_online, resolve, decimal}
use homedash.Jobs.{State, needs_you, check_state, is_running, Job, check_violated, ok, err}
use homedash.Jobs.Table.{
  Table, find_job, update_where, running_at, ended_as, killed_as, end_job, kill_job,
}
use homedash.Jobs.Updates.{Descending, update_where_none, picks_none}
use homedash.Jobs.Control.{Hub, correct, kill}

checked_all :
    (p : Job → Bool) (f : Job → Job) (rows : Table)
    → ((j : Job) → check_state (f j).state ≡ true)
    → all (λ j. not (p j) || check_state (f j).state) rows ≡ true
checked_all p f [] h = refl
checked_all p f (j ∷ js) h = ground (arith, h j, checked_all p f js h)

-- A state that the CHECK admits is written to the running row of the id, and to no other.
pub end_job_admitted :
    (id : ℕ) (s : State) (report reason : String) (now : ℕ) (rows : Table)
    → check_state s ≡ true
    → end_job id s report reason now rows
      ≡ ok (update_where (running_at id) (ended_as s report reason now) rows)
unfolding end_job
end_job_admitted id s report reason now rows h =
    rw (checked_all (running_at id) (ended_as s report reason now) rows (λ j. h))

-- What ended first stands: in a table whose ids fall, ending a row that runs no more, in a state that
-- the CHECK admits, changes nothing.
pub end_job_after_end :
    (id n : ℕ) (s : State) (report reason : String) (now : ℕ) (rows : Table) {j : Job}
    → Descending n rows
    → check_state s ≡ true
    → find_job id rows ≡ some j
    → is_running j.state ≡ false
    → end_job id s report reason now rows ≡ ok rows
end_job_after_end id n s report reason now rows {j} d h found stopped = rw (
  end_job_admitted id s report reason now rows h,
  update_where_none (running_at id) (ended_as s report reason now) rows
      (picks_none id n (running_at id) rows d (λ k e. ground arith) found (ground arith)),
)

violated_by_running :
    (id : ℕ) (reason : String) (now : ℕ) (rows : Table) {j : Job}
    → find_job id rows ≡ some j
    → is_running j.state ≡ true
    → all (λ j. not (running_at id j) || check_state (killed_as reason now j).state) rows ≡ false
unfolding find_job check_state
violated_by_running id reason now [] found runs = cc
violated_by_running id reason now (k ∷ ks) {j} found runs =
    ground (arith, violated_by_running id reason now ks {j = j})

-- The CHECK has no killed: no running row can be marked so.
pub kill_job_refused :
    (id : ℕ) (reason : String) (now : ℕ) (rows : Table) {j : Job}
    → find_job id rows ≡ some j
    → is_running j.state ≡ true
    → kill_job id reason now rows ≡ err check_violated
unfolding kill_job
kill_job_refused id reason now rows found runs =
    rw (violated_by_running id reason now rows found runs, kill_job)

pub find_job_id : (id : ℕ) (rows : Table) {j : Job} → find_job id rows ≡ some j → j.id ≡ id
unfolding find_job
find_job_id id [] e = cc
find_job_id id (k ∷ ks) {j} e = ground (arith, find_job_id id ks {j = j})

-- Kill on a running job of a host that is online: the statement is refused, and nothing changes.
pub kill_running_fails :
    (hub : Hub) (id now : ℕ) {job : Job} {h : Host}
    → find_job id hub.jobs ≡ some job
    → is_running job.state ≡ true
    → resolve (decimal job.host_id) hub.hosts ≡ some h
    → is_online h.status ≡ true
    → kill hub id now ≡ (err check_violated, hub)
unfolding kill
kill_running_fails hub id now {job} found runs at up = ground (
  arith,
  kill_job_refused id "stopped by request" now hub.jobs found runs,
  find_job_id id hub.jobs found,
)

-- Correct on a job that runs no more, has a session, does not wait for a person and has used up its
-- rounds, in a table whose ids fall: the person is notified, and every row stays as it is.
pub correct_at_cap :
    (hub : Hub) (id n : ℕ) (text : String) (now : ℕ) {job : Job}
    → Descending n hub.jobs
    → find_job id hub.jobs ≡ some job
    → is_running job.state ≡ false
    → job.state ≢ needs_you
    → job.session ≢ ""
    → setting_int hub.setting "agent.rounds" 3 ≤ job.rounds
    → correct hub id text now
      ≡ (ok job, record hub { notes = hub.notes ++ ("job.needs_you", id) ∷ [] })
unfolding correct check_state
correct_at_cap hub id n text now {job} d found stopped fresh session over = ground (
  arith,
  str_eq_iff job.session "",
  find_job_id id hub.jobs found,
  end_job_after_end id n needs_you job.report "reached the round cap" now hub.jobs d refl found
      stopped,
)
