-- ===== src/Tasks/Examples.antt =====
-- The scheduled tasks at concrete inputs.
use homedash.Prelude.{
  ℕ, ◌≡◌, refl, String, Bool, true, false, not, none, some, List, [], ◌∷◌, ◌==◌, str_eq, keep, take,
  All,
}
use homedash.Prelude.Int.{pos}
use homedash.Hosts.{Host, Status}
use homedash.Tasks.{Task, Scheduler, find_task, start}
use homedash.Prelude.Text.{trim_space}
use homedash.Prelude.Marks.{distinct}
use homedash.Gate.Examples.{df_passes, ls_passes}
use homedash.Tasks.Schedule.{InStep, Call, call_save, call_delete, perform, at_rest, clock-InStep}
use homedash.Tasks.Valid.{Sound, perform-Sound}
use homedash.Tasks.Fire.{Answer, ended, fire, targets}
use homedash.Tasks.Fire.Records.{runs_of}
use homedash.Tasks.Fire.Told.{fire-runs_of, fire-change_note}
use homedash.Tasks.Alone.{fires, ends, run, begin_fire, is_running, fires_apart}

abbrev task_of : ℕ → String → Task
task_of id command = record {
  id = id;
  name = "disk";
  host_id = 0;
  command = command;
  schedule = "@daily";
  timeout = pos 600;
  enabled = true;
  failing = false;
}

abbrev machine_at : ℕ → Status → Host
machine_at id status = record {
  id = id;
  name = "attic";
  addr = "10.0.0.7";
  status = status;
  agent_model = "";
  mem_total = 0;
  agent = none;
  ollama = false;
}

abbrev parses_daily : String → Bool
parses_daily s = str_eq s "@daily"

abbrev house : List Host
house = machine_at 1 Status.online ∷ machine_at 2 Status.offline ∷ []

abbrev answers : Host → Answer
answers h = ended (pos 2) (104 ∷ []) []

abbrev rows : List Task
rows = task_of 1 "df" ∷ task_of 2 "ls" ∷ []

abbrev calls : List Call
calls = call_save house (task_of 0 "uptime") ∷ call_delete 1 ∷ []

abbrev table : Scheduler
table = at_rest rows []

clock-InStep_example :
    InStep parses_daily (perform parses_daily calls (start parses_daily rows (at_rest rows [])))
unfolding find_task
clock-InStep_example = clock-InStep parses_daily rows [] calls (refl, (refl, tt))

perform-Sound_example : All (Sound parses_daily) (perform parses_daily calls table).tasks
unfolding trim_space
perform-Sound_example =
    perform-Sound parses_daily calls table
      ((refl, refl, refl, df_passes, refl, refl), ((refl, refl, refl, ls_passes, refl, refl), tt))

fire-runs_of_example :
    (keep (λ r. r.task_id == 1) (fire house answers 1 table).runs
      ≡ take 50 (keep (λ r. r.task_id == 1) (runs_of (task_of 1 "df") answers house [])))
    × (keep (λ r. not (r.task_id == 1)) (fire house answers 1 table).runs ≡ [])
unfolding find_task targets
fire-runs_of_example = fire-runs_of house answers table (task_of 1 "df") house refl df_passes refl

fire-change_note_example :
    (find_task 1 (fire house answers 1 table).tasks
      ≡ some (record (task_of 1 "df") { failing = true }))
    × ((fire house answers 1 table).notes ≡ ("task.failing", "disk") ∷ [])
unfolding find_task targets
fire-change_note_example =
    fire-change_note house answers table (task_of 1 "df") house (refl, (refl, tt)) refl df_passes
      refl

fires_apart_example :
    (distinct (run (fires 1 ∷ fires 1 ∷ ends 1 ∷ fires 2 ∷ []) ([], [])).1 ≡ true)
    × ((begin_fire 1 (run (fires 1 ∷ fires 1 ∷ ends 1 ∷ fires 2 ∷ []) ([], [])).0).0
        ≡ not (is_running 1 (run (fires 1 ∷ fires 1 ∷ ends 1 ∷ fires 2 ∷ []) ([], [])).1))
fires_apart_example = fires_apart (fires 1 ∷ fires 1 ∷ ends 1 ∷ fires 2 ∷ []) 1
