-- ===== src/Tasks/Fire/Records.antt =====
-- hub/internal/tasks/tasks.go and hub/internal/store/tasks.go: the runs that a fire leaves.
use Prim.Native.String
use homedash.Prelude.{
  ℕ, zero, suc, ◌≤◌, ◌≡◌, refl, ◌∙◌, Bool, true, false, not, ◌&&◌, ◌||◌, none, some, List, [], ◌∷◌,
  ◌==◌, if◌then◌else◌, any, keep, take, arith,
}
use homedash.Prelude.Int.{ℤ}
use homedash.Hosts.{Host, is_online}
use homedash.Tasks.{Task, Run}
use homedash.Tasks.Fire.{
  Answer, next_run, last_bytes, end_run, exit_of, output_of, is_failure, status_text, fire_host,
  fire_hosts, trim_runs,
}

-- The run of one machine, as it is when the loop has passed it.
unfoldable pub run_of : Task → (Host → Answer) → Host → List Run → Run
run_of t answer h runs = record {
  id = next_run runs;
  task_id = t.id;
  host = h.name;
  exit = if is_online h.status then some (exit_of (answer h)) else none;
  output = if is_online h.status then last_bytes (output_of (answer h)) else [];
  skipped = if is_online h.status then "" else String.◌++◌ "host is " (status_text h.status);
}

unfoldable pub runs_of : Task → (Host → Answer) → List Host → List Run → List Run
runs_of t answer [] runs = runs
runs_of t answer (h ∷ hs) runs = runs_of t answer hs (run_of t answer h runs ∷ runs)

abbrev pub fails_on : (Host → Answer) → Host → Bool
fails_on answer h = is_online h.status && is_failure (answer h)

end_run-fresh :
    (n : ℕ) (exit : ℤ) (output : List ℕ) (runs : List Run)
    → next_run runs ≤ n
    → end_run n exit output runs ≡ runs
unfolding next_run
end_run-fresh n exit output [] h = refl
end_run-fresh n exit output (r ∷ rs) h = let i = end_run-fresh n exit output rs in ground arith

fire_host-run_of :
    (t : Task) (answer : Host → Answer) (h : Host) (failed : Bool) (runs : List Run)
    → fire_host t answer h (failed, runs)
      ≡ (failed || fails_on answer h, run_of t answer h runs ∷ runs)
unfolding fire_host run_of
fire_host-run_of t answer h failed runs =
    let e = end_run-fresh (next_run runs) (exit_of (answer h)) (output_of (answer h)) runs in
    ground arith

||-assoc : (a b c : Bool) → ((a || b) || c) ≡ (a || (b || c))
||-assoc true b c = refl
||-assoc false b c = refl

||-false : (a : Bool) → (a || false) ≡ a
||-false true = refl
||-false false = refl

pub fire_hosts-runs_of :
    (t : Task) (answer : Host → Answer) (hs : List Host) (failed : Bool) (runs : List Run)
    → fire_hosts t answer hs (failed, runs)
      ≡ (failed || any (fails_on answer) hs, runs_of t answer hs runs)
unfolding fire_hosts runs_of
fire_hosts-runs_of t answer [] failed runs = rw (||-false failed) refl
fire_hosts-runs_of t answer (h ∷ hs) failed runs = rw (fire_host-run_of t answer h failed runs) (
    fire_hosts-runs_of t answer hs (failed || fails_on answer h) (run_of t answer h runs ∷ runs)
    ∙ rw (||-assoc failed (fails_on answer h) (any (fails_on answer) hs)) refl)

pub keep_others-runs_of :
    (t : Task) (answer : Host → Answer) (hs : List Host) (runs : List Run)
    → keep (λ r. not (r.task_id == t.id)) (runs_of t answer hs runs)
      ≡ keep (λ r. not (r.task_id == t.id)) runs
unfolding runs_of run_of
keep_others-runs_of t answer [] runs = refl
keep_others-runs_of t answer (h ∷ hs) runs =
    let i = keep_others-runs_of t answer hs (run_of t answer h runs ∷ runs) in ground arith

pub keep-trim_runs :
    (id n : ℕ) (runs : List Run)
    → keep (λ r. r.task_id == id) (trim_runs id n runs) ≡ take n (keep (λ r. r.task_id == id) runs)
unfolding trim_runs
keep-trim_runs id zero [] = refl
keep-trim_runs id (suc n) [] = refl
keep-trim_runs id zero (r ∷ rs) = let i = keep-trim_runs id zero rs in ground arith
keep-trim_runs id (suc n) (r ∷ rs) =
    let i = keep-trim_runs id (suc n) rs in let j = keep-trim_runs id n rs in ground arith

pub keep_others-trim_runs :
    (id n : ℕ) (runs : List Run)
    → keep (λ r. not (r.task_id == id)) (trim_runs id n runs)
      ≡ keep (λ r. not (r.task_id == id)) runs
unfolding trim_runs
keep_others-trim_runs id n [] = ground arith
keep_others-trim_runs id zero (r ∷ rs) = let i = keep_others-trim_runs id zero rs in ground arith
keep_others-trim_runs id (suc n) (r ∷ rs) =
    let i = keep_others-trim_runs id (suc n) rs in
    let j = keep_others-trim_runs id n rs in ground arith
