-- ===== src/Tasks.antt =====
-- hub/internal/tasks/tasks.go and the tasks of hub/internal/store/tasks.go. What a schedule's parser
-- takes is the parameter `parses` (the cron library); what a machine answers to a command is an
-- argument. Runs are listed with the newest first; the clock of a run is left out.
pub mod Table
pub mod Schedule
pub mod Fire
pub mod Alone
pub mod Valid
pub mod Examples
use homedash.Prelude.{
  ℕ, suc, ◌+◌, String, Bool, true, false, not, ◌&&◌, ◌||◌, Option, none, some, List, [], ◌∷◌, ◌++◌,
  ltb, ◌==◌, str_eq, if◌then◌else◌, any, keep, take, map,
}
use homedash.Prelude.Int.{ℤ, pos, negsuc, leb_ℤ, ltb_ℤ}
use homedash.Prelude.Text.{trim_space}
use homedash.Hosts.{Host, resolve, decimal}
use homedash.Gate.{check}

pub record Task : Type 0 where
  pub id : ℕ
  pub name : String
  pub host_id : ℕ  -- 0: every machine
  pub command : String
  pub schedule : String
  pub timeout : ℤ
  pub enabled : Bool
  pub failing : Bool

pub record Run : Type 0 where
  pub id : ℕ
  pub task_id : ℕ
  pub host : String
  pub exit : Option ℤ
  pub output : List ℕ  -- bytes
  pub skipped : String

-- `entries`: the tasks on the clock, each with the schedule that it was put there with.
pub record Scheduler : Type 0 where
  pub tasks : List Task
  pub runs : List Run
  pub entries : List (ℕ × String)
  pub notes : List (String × String)

abbrev pub default_timeout : ℤ
default_timeout = pos 600

abbrev pub with_timeout : Task → Task
with_timeout t = if leb_ℤ t.timeout (pos 0) then record t { timeout = default_timeout } else t

abbrev pub unless_refused : Option String → Task → Option Task
unless_refused none t = some t
unless_refused (some why) t = none

-- `Validate`: the task with its timeout filled in, or none where it is refused.
unfoldable pub validate : (String → Bool) → Task → Option Task
validate parses t =
    if str_eq (trim_space t.name) ""
    then none
    else if str_eq (trim_space t.command) ""
    then none
    else if not (parses t.schedule)
    then none
    else if ltb_ℤ (pos 86400) t.timeout
    then none
    else unless_refused (check t.command) (with_timeout t)

unfoldable pub find_task : ℕ → List Task → Option Task
find_task id [] = none
find_task id (t ∷ ts) = if t.id == id then some t else find_task id ts

-- The next rowid.
unfoldable pub next_id : List Task → ℕ
next_id [] = 1
next_id (t ∷ ts) = let n = next_id ts in if ltb t.id n then n else suc t.id

abbrev pub written : Task → Task → Task
written t old = record t { id = old.id; failing = old.failing }

-- INSERT at the end, and UPDATE of the row of the id. A host that is not there violates the foreign
-- key, so the caller checks it first.
abbrev pub insert_task : Task → List Task → ℕ × List Task
insert_task t ts = (next_id ts, ts ++ (record t { id = next_id ts; failing = false }) ∷ [])

abbrev pub update_task : Task → List Task → ℕ × List Task
update_task t ts = (t.id, map (λ old. if old.id == t.id then written t old else old) ts)

unfoldable pub save_task : Task → List Task → ℕ × List Task
save_task t ts = if t.id == 0 then insert_task t ts else update_task t ts

unfoldable pub entry_of : ℕ → List (ℕ × String) → Option String
entry_of id [] = none
entry_of id (e ∷ es) = if e.0 == id then some e.1 else entry_of id es

abbrev pub without_entry : ℕ → List (ℕ × String) → List (ℕ × String)
without_entry id = keep (λ e. not (e.0 == id))

-- `schedule`: off the clock, and on it again if the task is enabled and its schedule is one.
unfoldable pub schedule : (String → Bool) → Task → Scheduler → Scheduler
schedule parses t s =
    let off = without_entry t.id s.entries in
    record s { entries = if t.enabled && parses t.schedule then (t.id, t.schedule) ∷ off else off }

abbrev pub has_host : List Host → ℕ → Bool
has_host hosts id = id == 0 || any (λ h. h.id == id) hosts

abbrev pub host_found : List Host → ℕ → Bool
host_found hosts id =
    id == 0 || (elim (resolve (decimal id) hosts) [ none ↦ false | some h ↦ true ])

-- The row as it was stored goes on the clock.
abbrev pub reschedule : (String → Bool) → Option Task → Scheduler → Option Task × Scheduler
reschedule parses none s = (none, s)
reschedule parses (some t) s = (some t, schedule parses t s)

abbrev pub store_task : (String → Bool) → Task → Scheduler → Option Task × Scheduler
store_task parses t s =
    let saved = save_task t s.tasks in
    reschedule parses (find_task saved.0 saved.1) (record s { tasks = saved.1 })

abbrev pub save_valid :
    (String → Bool) → List Host → Option Task → Scheduler → Option Task × Scheduler
save_valid parses hosts none s = (none, s)
save_valid parses hosts (some t) s =
    if host_found hosts t.host_id && has_host hosts t.host_id
    then store_task parses t s
    else (none, s)

-- `Save`: none is an error.
unfoldable pub save : (String → Bool) → List Host → Task → Scheduler → Option Task × Scheduler
save parses hosts t s = save_valid parses hosts (validate parses t) s

-- `Delete`, with the runs of the task.
unfoldable pub delete : ℕ → Scheduler → Scheduler
delete id s = record s {
  entries = without_entry id s.entries;
  tasks = keep (λ t. not (t.id == id)) s.tasks;
  runs = keep (λ r. not (r.task_id == id)) s.runs;
}

-- `Start` puts every task on the clock.
unfoldable pub start : (String → Bool) → List Task → Scheduler → Scheduler
start parses [] s = s
start parses (t ∷ ts) s = start parses ts (schedule parses t s)
