-- ===== src/Tasks/Fire/Told.antt =====
-- hub/internal/tasks/tasks.go: what a fire leaves in the runs, in the task's row and in the
-- notifications.
use homedash.Prelude.{
  ℕ, ◌≡◌, refl, ap, ◌∙◌, String, Bool, true, false, not, none, some, List, [], ◌∷◌, ◌++◌, ◌==◌, any,
  keep, take, arith,
}
use homedash.Hosts.{Host}
use homedash.Gate.{check}
use homedash.Tasks.{Task, Scheduler, find_task}
use homedash.Tasks.Table.{DistinctIds}
use homedash.Tasks.Fire.{Answer, set_failing, failing_note, same, told, targets, fire, runs_kept}
use homedash.Tasks.Fire.Records.{
  runs_of, fails_on, fire_hosts-runs_of, keep_others-runs_of, keep-trim_runs, keep_others-trim_runs,
}

-- A fire that the gate lets through and that finds its machines.
fire-told :
    (hosts : List Host) (answer : Host → Answer) (s : Scheduler) (t : Task) (hs : List Host)
    → find_task t.id s.tasks ≡ some t
    → check t.command ≡ none
    → targets hosts t ≡ some hs
    → fire hosts answer t.id s ≡ told t (any (fails_on answer) hs, runs_of t answer hs s.runs) s
unfolding fire
fire-told hosts answer s t hs f c g =
    rw (f, c, g) (ap (λ r. told t r s) (fire_hosts-runs_of t answer hs false s.runs))

-- A fire of a task whose command the gate lets through and whose machines are found adds to the task's
-- runs one for each machine, in the order of the machines, with the answer of a machine that is online
-- and the reason for one that is not, and of them all keeps the newest 50; the runs of the other tasks
-- stay.
pub fire-runs_of :
    (hosts : List Host) (answer : Host → Answer) (s : Scheduler) (t : Task) (hs : List Host)
    → find_task t.id s.tasks ≡ some t
    → check t.command ≡ none
    → targets hosts t ≡ some hs
    → (keep (λ r. r.task_id == t.id) (fire hosts answer t.id s).runs
        ≡ take 50 (keep (λ r. r.task_id == t.id) (runs_of t answer hs s.runs)))
      × (keep (λ r. not (r.task_id == t.id)) (fire hosts answer t.id s).runs
          ≡ keep (λ r. not (r.task_id == t.id)) s.runs)
unfolding told
fire-runs_of hosts answer s t hs f c g = rw (fire-told hosts answer s t hs f c g) (
  keep-trim_runs t.id runs_kept (runs_of t answer hs s.runs),
  keep_others-trim_runs t.id runs_kept (runs_of t answer hs s.runs)
      ∙ keep_others-runs_of t answer hs s.runs,
)

set_failing-found :
    (id : ℕ) (failing : Bool) (ts : List Task) (t : Task)
    → find_task id ts ≡ some t
    → find_task id (set_failing id failing ts).1 ≡ some (record t { failing = failing })
unfolding set_failing find_task
set_failing-found id failing [] t h = ground arith
set_failing-found id failing (u ∷ ts) t h =
    let i = set_failing-found id failing ts t in ground arith

set_failing-absent :
    (id : ℕ) (failing : Bool) (ts : List Task)
    → find_task id ts ≡ none
    → (set_failing id failing ts).0 ≡ false
unfolding set_failing find_task
set_failing-absent id failing [] h = refl
set_failing-absent id failing (u ∷ ts) h = let i = set_failing-absent id failing ts in ground arith

set_failing-changed :
    (id : ℕ) (failing : Bool) (ts : List Task) (t : Task)
    → DistinctIds ts
    → find_task id ts ≡ some t
    → (set_failing id failing ts).0 ≡ not (same t.failing failing)
unfolding set_failing find_task
set_failing-changed id failing [] t d h = ground arith
set_failing-changed id failing (u ∷ ts) t d h =
    let i = set_failing-changed id failing ts t d.1 in
    let a = set_failing-absent id failing ts in let e = d.0 in ground arith

-- The one notification of a fire: that the task has started failing, or that it succeeded again.
abbrev pub change_note : Bool → Bool → String → List (String × String)
change_note false true name = ("task.failing", name) ∷ []
change_note true false name = ("task.ok", name) ∷ []
change_note _ _ name = []

failing_note-changed :
    (was now : Bool) (name : String)
    → failing_note (not (same was now)) now name ≡ change_note was now name
failing_note-changed true true name = refl
failing_note-changed true false name = refl
failing_note-changed false true name = refl
failing_note-changed false false name = refl

-- A fire of a task whose command the gate lets through and whose machines are found, in a table whose
-- ids differ, leaves the task failing exactly when the command failed on some machine that is online,
-- and notifies exactly when that is a change.
pub fire-change_note :
    (hosts : List Host) (answer : Host → Answer) (s : Scheduler) (t : Task) (hs : List Host)
    → DistinctIds s.tasks
    → find_task t.id s.tasks ≡ some t
    → check t.command ≡ none
    → targets hosts t ≡ some hs
    → (find_task t.id (fire hosts answer t.id s).tasks
        ≡ some (record t { failing = any (fails_on answer) hs }))
      × ((fire hosts answer t.id s).notes
          ≡ s.notes ++ change_note t.failing (any (fails_on answer) hs) t.name)
unfolding told
fire-change_note hosts answer s t hs d f c g = rw (fire-told hosts answer s t hs f c g) (
  set_failing-found t.id (any (fails_on answer) hs) s.tasks t f,
  ap (λ b. s.notes ++ failing_note b (any (fails_on answer) hs) t.name)
        (set_failing-changed t.id (any (fails_on answer) hs) s.tasks t d f)
      ∙ ap (λ n. s.notes ++ n) (failing_note-changed t.failing (any (fails_on answer) hs) t.name),
)
