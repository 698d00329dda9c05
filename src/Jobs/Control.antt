-- ===== src/Jobs/Control.antt =====
-- hub/internal/agent/jobs.go: Start, Correct, Kill, Rollback and Clear. What the remote answers is
-- an argument. A call returns its result and the hub it leaves, for what was written before an
-- error stays written.
use homedash.Prelude.{
  ℕ, String, Bool, true, false, not, ◌&&◌, ◌||◌, Option, none, some, List, [], ◌∷◌, ◌++◌, ltb, leb,
  str_eq, if◌then◌else◌, length,
}
use homedash.Prelude.Text.{trim_space, has_prefix}
use homedash.Settings.{Settings, setting_int}
use homedash.Hosts.{Host, is_online, resolve, decimal}
use homedash.Jobs.{
  State, needs_you, is_running, Job, Error, no_instructions, offline, relative_cwd,
  too_little_memory, no_agent, no_account, cannot_connect, no_directory, no_such_job, no_host,
  still_running, not_running, no_session, no_snapshot, rollback_failed, Result, ok, err, or_fail,
}
use homedash.Jobs.Table.{
  Table, create_job, find_job, set_snapshot, start_round, end_job, kill_job, clear_jobs,
}

-- A round handed to a goroutine: the job, the machine, the text after the standing instructions,
-- whether it resumes the session, and whether it reuses the connection of Start.
pub record Launch : Type 0 where
  pub job : Job
  pub host : Host
  pub instructed : Bool
  pub secrets : List String
  pub text : String
  pub resume : Bool
  pub connected : Bool

pub record Hub : Type 0 where
  pub jobs : Table
  pub hosts : List Host
  pub setting : Settings
  pub secret_names : ℕ → List String
  pub launched : List Launch
  pub notes : List (String × ℕ)  -- notifications: kind and job

abbrev pub memory_floor : ℕ
memory_floor = 1468006400

abbrev pub agent_home : String
agent_home = "/home/homedash-agent"

-- The checks of Start before the connection, in their order.
abbrev check_agent : Option Bool → Option Error
check_agent none = some no_agent
check_agent (some false) = some no_account
check_agent (some true) = none

unfoldable pub check_start : Host → String → String → Option Error
check_start h cwd text =
    if str_eq (trim_space text) ""
    then some no_instructions
    else if not (is_online h.status)
    then some offline
    else if not (has_prefix cwd "/")
    then some relative_cwd
    else if ltb 0 h.mem_total && ltb h.mem_total memory_floor
    then some too_little_memory
    else check_agent h.agent

-- `if cwd == "" { cwd = gate.AgentHome }`.
abbrev pub cwd_or_home : String → String
cwd_or_home cwd = if str_eq cwd "" then agent_home else cwd

unfoldable pub remote_model : Settings → String
remote_model setting =
    if str_eq (setting "agent.remote_model") ""
    then setting "agent.default_model"
    else setting "agent.remote_model"

abbrev pub model_for : Settings → Host → String
model_for setting h = if str_eq h.agent_model "" then remote_model setting else h.agent_model

launch_new : Hub → Host → String → Option Job → Result Job × Hub
launch_new hub h text none = (err no_such_job, hub)
launch_new hub h text (some job) = (ok job, record hub { launched = hub.launched ++ launch ∷ [] })
  where
    launch : Launch
    launch = record {
      job = job;
      host = h;
      instructed = true;
      secrets = hub.secret_names h.id;
      text = text;
      resume = false;
      connected = true;
    }

create_and_launch : Hub → Host → String → String → ℕ → Result Job × Hub
unfolding launch_new
create_and_launch hub h cwd text window_id =
    let (id, rows) =
      create_job h.id window_id cwd (model_for hub.setting h) text
        (setting_int hub.setting "jobs.timeout" 1200) hub.jobs in
    launch_new (record hub { jobs = rows }) h text (find_job id rows)

-- `dials` and `has_directory` are what the machine answers.
unfoldable pub start : Hub → Host → String → String → ℕ → Bool → Bool → Result Job × Hub
unfolding check_start create_and_launch
start hub h cwd text window_id dials has_directory =
    let dir = cwd_or_home cwd in
    elim (check_start h dir text) [
      | some e ↦ (err e, hub)
      | none ↦
          if not dials
          then (err cannot_connect, hub)
          else if not has_directory
          then (err no_directory, hub)
          else create_and_launch hub h dir text window_id
    ]

abbrev is_needs_you : State → Bool
is_needs_you needs_you = true
is_needs_you _ = false

-- `_ = j.Store.EndJob(…)`: an error leaves the rows as they were.
abbrev or_same : Table → Result Table → Table
or_same rows (ok rows') = rows'
or_same rows (err e) = rows

abbrev pub rows_after_cap : Hub → Job → ℕ → Table
rows_after_cap hub job now =
    or_same hub.jobs (end_job job.id needs_you job.report "reached the round cap" now hub.jobs)

abbrev note : Hub → String → ℕ → Hub
note hub kind id = record hub { notes = hub.notes ++ (kind, id) ∷ [] }

at_cap : Hub → Job → ℕ → Result Job × Hub
at_cap hub job now =
    let rows = rows_after_cap hub job now in
    (
      or_fail no_such_job (find_job job.id rows),
      note (record hub { jobs = rows }) "job.needs_you" job.id,
    )

-- After StartRound the job is read again for the round.
next_round : Hub → Host → String → ℕ → Result Job × Hub
next_round hub h text id =
    let rows = start_round id hub.jobs in
    elim (find_job id rows) [
      | none ↦ (err no_such_job, record hub { jobs = rows })
      | some job ↦ (
        ok job,
        record hub {
          jobs = rows;
          launched =
              hub.launched
              ++ record {
                job = job;
                host = h;
                instructed = false;
                secrets = [];
                text = text;
                resume = true;
                connected = false;
              }
                ∷ [];
        },
      )
    ]

on_host : Hub → Job → (Host → Result Job × Hub) → Result Job × Hub
on_host hub job k = elim (resolve (decimal job.host_id) hub.hosts) [
  | none ↦ (err no_host, hub)
  | some h ↦ k h
]

correct_job : Hub → Job → String → ℕ → Result Job × Hub
unfolding at_cap next_round on_host
correct_job hub job text now =
    if is_running job.state
    then (err still_running, hub)
    else if str_eq job.session ""
    then (err no_session, hub)
    else if leb (setting_int hub.setting "agent.rounds" 3) job.rounds
        && not (is_needs_you job.state)
    then at_cap hub job now
    else on_host hub job (λ h. next_round hub h text job.id)

on_job : Hub → ℕ → (Job → Result Job × Hub) → Result Job × Hub
on_job hub id k = elim (find_job id hub.jobs) [ none ↦ (err no_such_job, hub) | some job ↦ k job ]

unfoldable pub correct : Hub → ℕ → String → ℕ → Result Job × Hub
unfolding on_job correct_job
correct hub id text now = on_job hub id (λ job. correct_job hub job text now)

mark_killed : Hub → Job → ℕ → Result Job × Hub
mark_killed hub job now = elim (kill_job job.id "stopped by request" now hub.jobs) [
  | err e ↦ (err e, hub)
  | ok (rows, done) ↦
      if not done
      then (err not_running, record hub { jobs = rows })
      else (or_fail no_such_job (find_job job.id rows), record hub { jobs = rows })
]

unfoldable pub kill : Hub → ℕ → ℕ → Result Job × Hub
unfolding on_job on_host mark_killed
kill hub id now = on_job hub id λ job.
    if not (is_running job.state)
    then (err not_running, hub)
    else on_host hub job
        λ h. if not (is_online h.status) then (err offline, hub) else mark_killed hub job now

-- What `snapshot.sh rollback` printed, if it succeeded.
rolled_back : Hub → Job → Option String → Result Job × Hub
rolled_back hub job none = (err rollback_failed, note hub "job.rollback_failed" job.id)
rolled_back hub job (some out) =
    let rows = set_snapshot job.id out hub.jobs in
    (
      or_fail no_such_job (find_job job.id rows),
      note (record hub { jobs = rows }) "job.rolled_back" job.id,
    )

unfoldable pub rollback : Hub → ℕ → Bool → Option String → Result Job × Hub
unfolding on_job on_host rolled_back
rollback hub id dials out = on_job hub id λ job.
    if is_running job.state
    then (err still_running, hub)
    else if not (str_eq job.snapshot "btrfs" || str_eq job.snapshot "lvm")
    then (err no_snapshot, hub)
    else on_host hub job
        λ h. if not dials then (err cannot_connect, hub) else rolled_back hub job out

-- The number that went, and the hub without them.
unfoldable pub clear : Hub → ℕ × Hub
clear hub = let (rows, gone) = clear_jobs hub.jobs in (length gone, record hub { jobs = rows })
