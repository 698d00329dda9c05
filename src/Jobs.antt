-- ===== src/Jobs.antt =====
-- Remote jobs: the row of the jobs table (hub/internal/store/jobs.go), its states, and what a call
-- can fail with (hub/internal/agent/jobs.go). Times are numbers that an argument `now` brings in.
pub mod Table
pub mod Round
pub mod Control
pub mod Updates
pub mod Retention
pub mod Lifecycle
pub mod Statements
pub mod Reachable
pub mod Outcomes
pub mod Events
pub mod Examples
use homedash.Prelude.{ℕ, String, Option, Bool, true, false}

pub data State : Type 0 where
  running done failed needs_you killed : State

-- The column's CHECK in the schema.
unfoldable pub check_state : State → Bool
check_state running = true
check_state done = true
check_state failed = true
check_state needs_you = true
check_state killed = false

abbrev pub is_running : State → Bool
is_running running = true
is_running _ = false

pub record Job : Type 0 where
  pub id : ℕ
  pub host_id : ℕ
  pub cwd : String
  pub window_id : ℕ  -- 0: no window
  pub model : String
  pub text : String
  pub rounds : ℕ
  pub state : State
  pub timeout_s : ℕ
  pub session : String
  pub snapshot : String
  pub report : String
  pub changes : String
  pub reason : String
  pub ended : Option ℕ

pub data Error : Type 0 where
  no_instructions : Error
  offline : Error
  relative_cwd : Error
  too_little_memory : Error
  no_agent : Error
  no_account : Error
  cannot_connect : Error
  no_directory : Error
  no_such_job : Error
  no_host : Error
  still_running : Error
  not_running : Error
  no_session : Error
  no_snapshot : Error
  rollback_failed : Error
  check_violated : Error  -- SQLite refused the statement

pub data Result {ℓ} (A : Type ℓ) : Type ℓ where
  ok : A → Result A
  err : Error → Result A

abbrev pub or_fail {ℓ} : {A : Type ℓ} → Error → Option A → Result A
or_fail e Option.none = err e
or_fail e (Option.some a) = ok a
