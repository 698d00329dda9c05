-- ===== src/Jobs/Examples.antt =====
-- The jobs at concrete inputs.
use homedash.Prelude.{
  ℕ, ◌≡◌, ◌≤◌, refl, inl, inr, true, false, none, some, List, [], ◌∷◌, arith, length, keep, not,
}
use homedash.Prelude.Text.{trim_space, atoi}
use homedash.Settings.{setting_int}
use homedash.Hosts.{Host, Status}
use homedash.Jobs.{Job, State, running, done, failed, is_running}
use homedash.Jobs.Table.{Table, trim_jobs, next_id, at_least_five, at_host, is_in, newest}
use homedash.Jobs.Control.{Hub}
use homedash.Jobs.Lifecycle.{Call, run, starts, completes, corrects, clears}
use homedash.Jobs.Statements.{Inv}
use homedash.Jobs.Reachable.{run-Inv}
use homedash.Jobs.Retention.{finished_at, trim_jobs_effect}
use homedash.Jobs.Round.{Remote, Trace, finish, exited, unchecked}
use homedash.Jobs.Events.{Signal, line, tick, batch_lines, fresh, concat, batch_lines_complete}

abbrev machine : Host
machine = record {
  id = 7;
  name = "attic";
  addr = "10.0.0.7";
  status = Status.online;
  agent_model = "";
  mem_total = 0;
  agent = some true;
  ollama = true;
}

abbrev job_of : ℕ → State → ℕ → Job
job_of id state rounds = record {
  id = id;
  host_id = 7;
  cwd = "/srv";
  window_id = 0;
  model = "m";
  text = "check the disk";
  rounds = rounds;
  state = state;
  timeout_s = 1200;
  session = "s1";
  snapshot = "";
  report = "";
  changes = "";
  reason = "";
  ended = none;
}

abbrev two_jobs : Table
two_jobs = job_of 2 running 1 ∷ job_of 1 done 3 ∷ []

abbrev hub_of : Table → Hub
hub_of rows = record {
  jobs = rows;
  hosts = machine ∷ [];
  setting = λ key. "";
  secret_names = λ id. [];
  launched = [];
  notes = [];
}

two_jobs-Inv : Inv 3 (hub_of two_jobs)
unfolding setting_int trim_space atoi next_id
two_jobs-Inv = record {
  sound = (
    record { state = inl refl; started = omega arith; capped = omega arith },
    (record { state = inr (inl refl); started = omega arith; capped = omega arith }, tt),
  );
  ordered = (omega arith, (omega arith, tt));
  setting = refl;
}

abbrev a_day : List Call
a_day =
    starts machine "/srv" "free some space" 0 true true
    ∷ completes 2 "done" "" 60
    ∷ corrects 1 "and the logs" 61
    ∷ clears
    ∷ []

run-Inv_example : Inv 3 (run (hub_of two_jobs) a_day)
run-Inv_example = run-Inv 3 (hub_of two_jobs) a_day two_jobs-Inv

abbrev seven_jobs : Table
seven_jobs =
    job_of 7 running 1
    ∷ job_of 6 done 1
    ∷ job_of 5 failed 1
    ∷ job_of 4 done 1
    ∷ job_of 3 done 2
    ∷ job_of 2 done 1
    ∷ job_of 1 failed 1
    ∷ []

trim_jobs_effect_example :
    (length (keep (finished_at 7) (trim_jobs 7 2 seven_jobs).0) ≤ at_least_five 2)
    × (keep (λ j. is_running j.state) (trim_jobs 7 2 seven_jobs).0
        ≡ keep (λ j. is_running j.state) seven_jobs)
    × (keep (λ j. not (at_host 7 j)) (trim_jobs 7 2 seven_jobs).0
        ≡ keep (λ j. not (at_host 7 j)) seven_jobs)
    × (keep (λ j. is_in (newest 7 (at_least_five 2) seven_jobs) j.id) (trim_jobs 7 2 seven_jobs).0
        ≡ keep (λ j. is_in (newest 7 (at_least_five 2) seven_jobs) j.id) seven_jobs)
trim_jobs_effect_example = trim_jobs_effect 7 2 8 seven_jobs (
  omega arith,
  (omega arith, (omega arith, (omega arith, (omega arith, (omega arith, (omega arith, tt)))))),
)

abbrev silent : Remote
silent = record {
  dials = true;
  snapshot = none;
  lives_at_snapshot = true;
  arms = true;
  session_opens = true;
  stream = ("{}", none, true) ∷ [];
  ending = exited;
  out_of_time = false;
  lives_after_stream = true;
  lives_at_end = true;
  stderr = "killed";
  hold = unchecked "no snapshot";
  compact = λ text. none;
}

abbrev before_round : Trace
before_round = record { hub = hub_of two_jobs; events = []; usages = []; deleted = [] }

-- A round whose context has ended leaves its row running.
late_round :
    (finish (job_of 2 running 1) false false 90 failed "" "cannot connect" before_round).jobs
    ≡ two_jobs
unfolding finish
late_round = refl

abbrev three_lines : List Signal
three_lines = line "a" true ∷ line "b" true ∷ tick true ∷ line "c" true ∷ []

batch_lines_complete_example :
    concat (batch_lines fresh three_lines true).stored ≡ "a" ∷ "b" ∷ "c" ∷ []
batch_lines_complete_example = batch_lines_complete three_lines (refl, (refl, (refl, (refl, tt))))
