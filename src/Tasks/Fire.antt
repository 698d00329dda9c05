-- ===== src/Tasks/Fire.antt =====
-- hub/internal/tasks/tasks.go: `Fire`, after the guard that keeps a task's fires apart, and the runs
-- of hub/internal/store/tasks.go. Outputs are bytes. A run keeps the name of its machine, not its id.
pub mod Records
pub mod Told
use Prim.Native.String
use homedash.Prelude.{
  ℕ, zero, suc, ◌+◌, ◌-◌, String, Bool, true, false, not, ◌&&◌, ◌||◌, Option, none, some, List, [],
  ◌∷◌, ◌++◌, ltb, ◌==◌, if◌then◌else◌, any, map, length, drop,
}
use homedash.Prelude.Int.{ℤ, pos, negsuc}
use homedash.Hosts.{Host, Status, unknown, online, offline, mismatch, is_online, resolve, decimal}
use homedash.Gate.{check}
use homedash.Tasks.{Task, Run, Scheduler, find_task}

-- What `Fleet.Run` gives: an error's text, or the exit code and the two outputs.
pub data Answer : Type 0 where
  broke : List ℕ → Answer
  ended : ℤ → List ℕ → List ℕ → Answer

unfoldable pub next_run : List Run → ℕ
next_run [] = 1
next_run (r ∷ rs) = let n = next_run rs in if ltb r.id n then n else suc r.id

-- `StartRun`: the row that begins, or that says why nothing ran.
abbrev pub start_run : ℕ → String → String → List Run → List Run
start_run task host skipped runs =
    record {
      id = next_run runs;
      task_id = task;
      host = host;
      exit = none;
      output = [];
      skipped = skipped;
    }
    ∷ runs

-- 64 << 10.
abbrev pub output_max : ℕ
output_max = 65536

abbrev pub last_bytes : List ℕ → List ℕ
last_bytes output =
    if ltb output_max (length output) then drop (length output - output_max) output else output

-- `EndRun`.
abbrev pub end_run : ℕ → ℤ → List ℕ → List Run → List Run
end_run id exit output =
    map (λ r. if r.id == id then record r { exit = some exit; output = last_bytes output } else r)

abbrev pub exit_of : Answer → ℤ
exit_of (broke why) = negsuc 0
exit_of (ended code out err) = code

abbrev pub output_of : Answer → List ℕ
output_of (broke why) = why
output_of (ended code out err) = out ++ err

abbrev pub is_failure : Answer → Bool
is_failure (broke why) = true
is_failure (ended (pos zero) out err) = false
is_failure (ended (pos (suc n)) out err) = true
is_failure (ended (negsuc n) out err) = true

abbrev pub status_text : Status → String
status_text unknown = "unknown"
status_text online = "online"
status_text offline = "offline"
status_text mismatch = "mismatch"

-- One turn of the loop over the machines: whether some run failed so far, and the runs.
unfoldable pub fire_host : Task → (Host → Answer) → Host → Bool × List Run → Bool × List Run
fire_host t answer h (failed, runs) =
    if is_online h.status
    then (
      failed || is_failure (answer h),
      end_run (next_run runs) (exit_of (answer h)) (output_of (answer h))
          (start_run t.id h.name "" runs),
    )
    else (failed, start_run t.id h.name (String.◌++◌ "host is " (status_text h.status)) runs)

unfoldable pub fire_hosts : Task → (Host → Answer) → List Host → Bool × List Run → Bool × List Run
fire_hosts t answer [] s = s
fire_hosts t answer (h ∷ hs) s = fire_hosts t answer hs (fire_host t answer h s)

-- `TrimRuns`: of the task's runs the first n.
unfoldable pub trim_runs : ℕ → ℕ → List Run → List Run
trim_runs task n [] = []
trim_runs task zero (r ∷ rs) =
    let rest = trim_runs task zero rs in if r.task_id == task then rest else r ∷ rest
trim_runs task (suc n) (r ∷ rs) =
    let others = trim_runs task (suc n) rs in
    let fewer = trim_runs task n rs in if r.task_id == task then r ∷ fewer else r ∷ others

abbrev pub runs_kept : ℕ
runs_kept = 50

abbrev pub same : Bool → Bool → Bool
same true b = b
same false b = not b

-- `SetTaskFailing`: whether the row changed, and the rows.
unfoldable pub set_failing : ℕ → Bool → List Task → Bool × List Task
set_failing id failing ts = (
  any (λ t. t.id == id && not (same t.failing failing)) ts,
  map (λ t. if t.id == id then record t { failing = failing } else t) ts,
)

abbrev pub failing_note : Bool → Bool → String → List (String × String)
failing_note false failing name = []
failing_note true true name = ("task.failing", name) ∷ []
failing_note true false name = ("task.ok", name) ∷ []

-- The end of `Fire`, after the loop.
unfoldable pub told : Task → Bool × List Run → Scheduler → Scheduler
told t (failed, runs) s = record s {
  tasks = (set_failing t.id failed s.tasks).1;
  runs = trim_runs t.id runs_kept runs;
  notes = s.notes ++ failing_note (set_failing t.id failed s.tasks).0 failed t.name;
}

abbrev pub one_host : Option Host → Option (List Host)
one_host none = none
one_host (some h) = some (h ∷ [])

unfoldable pub targets : List Host → Task → Option (List Host)
targets hosts t =
    if t.host_id == 0 then some hosts else one_host (resolve (decimal t.host_id) hosts)

abbrev pub fire_at : (Host → Answer) → Task → Option (List Host) → Scheduler → Scheduler
fire_at answer t none s = s
fire_at answer t (some hs) s = told t (fire_hosts t answer hs (false, s.runs)) s

-- A command that the gate refuses, and why; one that it lets through.
abbrev pub fire_checked : List Host → (Host → Answer) → Task → Option String → Scheduler → Scheduler
fire_checked hosts answer t none s = fire_at answer t (targets hosts t) s
fire_checked hosts answer t (some why) s = record s {
  runs = start_run t.id "" why s.runs;
  notes = s.notes ++ ("gate.refused", t.name) ∷ [];
}

abbrev pub fire_found : List Host → (Host → Answer) → Option Task → Scheduler → Scheduler
fire_found hosts answer none s = s
fire_found hosts answer (some t) s = fire_checked hosts answer t (check t.command) s

unfoldable pub fire : List Host → (Host → Answer) → ℕ → Scheduler → Scheduler
fire hosts answer id s = fire_found hosts answer (find_task id s.tasks) s
