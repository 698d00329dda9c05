-- ===== src/Jobs/Statements.antt =====
-- The statements on the jobs table keep the rows sound: only the states running, done and failed
-- occur, and the rounds stay within the cap.
use homedash.Prelude.{
  ℕ, suc, ◌≤◌, ◌≡◌, refl, ◌⊎◌, inl, inr, String, Bool, true, false, arith, All, keep, All-zip, ◌==◌,
  some, Bool-cases, Option-cases,
}
use homedash.Settings.{setting_int}
use homedash.Hosts.{Host}
use homedash.Jobs.{State, running, done, failed, needs_you, check_state, is_running, Job}
use homedash.Jobs.Table.{
  Table, create_job, update_where, end_job, start_round, find_job, running_at, ended_as, next_id,
}
use homedash.Jobs.Outcomes.{end_job_admitted, find_job_id, kill_job_refused}
use homedash.Jobs.Updates.{
  only_row, update_where-All, keep-All, Descending, Descending-keep, Descending-update_where,
  Descending-next_id,
}
use homedash.Jobs.Control.{Hub, start, correct, kill, rows_after_cap, cwd_or_home, model_for}
use homedash.Jobs.Lifecycle.{rows_or}

-- What the rows keep: the states that occur, and the count of rounds.
abbrev pub Plain : State → Type 0
Plain s = (s ≡ running) ⊎ (s ≡ done) ⊎ (s ≡ failed)

pub record Sound (cap : ℕ) (j : Job) : Type 0 where
  pub state : Plain j.state
  pub started : 1 ≤ j.rounds
  pub capped : j.rounds ≤ cap

abbrev pub AllSound : ℕ → Table → Type 0
AllSound cap = All (Sound cap)

-- An UPDATE that leaves the rounds alone, and writes one of the three states or none.
updated-AllSound :
    (cap : ℕ) (p : Job → Bool) (f : Job → Job) (rows : Table)
    → ((j : Job) → (f j).rounds ≡ j.rounds)
    → ((j : Job) → Plain j.state → Plain (f j).state)
    → AllSound cap rows
    → AllSound cap (update_where p f rows)
updated-AllSound cap p f rows keeps plain =
    update_where-All (Sound cap) (Sound cap) p f rows
      (λ j e s. record {
        state = plain j s.state;
        started = rw (keeps j) s.started;
        capped = rw (keeps j) s.capped;
      })
      (λ j _ s. s)

ended-AllSound :
    (cap id : ℕ) (s : State) (report reason : String) (now : ℕ) (rows : Table)
    → Plain s
    → check_state s ≡ true
    → AllSound cap rows
    → AllSound cap (rows_or rows (end_job id s report reason now rows))
ended-AllSound cap id s report reason now rows p e a =
    rw (end_job_admitted id s report reason now rows e) (
      updated-AllSound cap (running_at id) (ended_as s report reason now) rows (λ j. refl)
        (λ j _. p) a)

pub start_round-AllSound :
    (cap id n : ℕ) (rows : Table) {j : Job}
    → Descending n rows
    → find_job id rows ≡ some j
    → suc j.rounds ≤ cap
    → AllSound cap rows
    → AllSound cap (start_round id rows)
unfolding start_round
start_round-AllSound cap id n rows {j} d e below a =
    update_where-All (λ k. Sound cap k × ((k.id == id) ≡ true → k ≡ j)) (Sound cap)
      (λ k. k.id == id) _ rows
      (λ k hit h. record { state = inl refl; started = omega arith; capped = rw (h.1 hit) below })
      (λ k _ h. h.0)
      (All-zip (Sound cap) (λ k. (k.id == id) ≡ true → k ≡ j) rows a (only_row id n rows d e))

module _ (hub : Hub) (id : ℕ) (text : String) (now : ℕ) {job : Job}
    (found : find_job id hub.jobs ≡ some job) where
  -- The rows that Correct leaves: as they were, marked at the cap, or with one more round.
  pub correct_rows :
      ((correct hub id text now).1.jobs ≡ hub.jobs)
      ⊎ (is_running job.state ≡ false)
        × ((correct hub id text now).1.jobs ≡ rows_after_cap hub job now)
      ⊎ ((suc job.rounds ≤ setting_int hub.setting "agent.rounds" 3) ⊎ (job.state ≡ needs_you))
        × ((correct hub id text now).1.jobs ≡ start_round job.id hub.jobs)
  unfolding correct
  correct_rows = ground arith

pub start_rows :
    (hub : Hub) (h : Host) (cwd text : String) (window : ℕ) (dials dir : Bool)
    → ((start hub h cwd text window dials dir).1.jobs ≡ hub.jobs)
      ⊎ ((start hub h cwd text window dials dir).1.jobs
          ≡ (create_job h.id window
              (cwd_or_home cwd)
              (model_for hub.setting h)
              text
              (setting_int hub.setting "jobs.timeout" 1200)
              hub.jobs).1)
unfolding start
start_rows hub h cwd text window dials dir = ground arith

pub kill_rows : (hub : Hub) (id now : ℕ) → (kill hub id now).1.jobs ≡ hub.jobs
unfolding kill
kill_rows hub id now = elim (Option-cases (find_job id hub.jobs)) [
  | inl e ↦ ground (arith, e)
  | inr (job, e) ↦ elim (Bool-cases (is_running job.state)) [
    | inl runs ↦ ground (
      arith,
      e,
      find_job_id id hub.jobs e,
      kill_job_refused id "stopped by request" now hub.jobs e runs,
    )
    | inr stopped ↦ ground (arith, e)
  ]
]

-- What every state of the hub has: sound rows, ids in order, and the cap that the settings hold.
pub record Inv (cap : ℕ) (hub : Hub) : Type 0 where
  pub sound : AllSound cap hub.jobs
  pub ordered : Descending (next_id hub.jobs) hub.jobs
  pub setting : setting_int hub.setting "agent.rounds" 3 ≡ cap

-- An UPDATE by a statement that keeps the ids.
pub record Keeps (cap : ℕ) (rows rows' : Table) : Type 0 where
  pub sound : AllSound cap rows → AllSound cap rows'
  pub ordered : Descending (next_id rows) rows → Descending (next_id rows') rows'

pub updated-Keeps :
    (cap : ℕ) (p : Job → Bool) (f : Job → Job) (rows : Table)
    → ((j : Job) → (f j).id ≡ j.id)
    → ((j : Job) → (f j).rounds ≡ j.rounds)
    → ((j : Job) → Plain j.state → Plain (f j).state)
    → Keeps cap rows (update_where p f rows)
updated-Keeps cap p f rows same keeps plain = record {
  sound = updated-AllSound cap p f rows keeps plain;
  ordered = λ d. Descending-next_id _ _ (Descending-update_where p f _ rows same d);
}

pub kept-Keeps : (cap : ℕ) (p : Job → Bool) (rows : Table) → Keeps cap rows (keep p rows)
kept-Keeps cap p rows = record {
  sound = keep-All (Sound cap) p rows;
  ordered = λ d. Descending-next_id _ _ (Descending-keep p _ rows d);
}

pub ended-Keeps :
    (cap id : ℕ) (s : State) (report reason : String) (now : ℕ) (rows : Table)
    → Plain s
    → check_state s ≡ true
    → Keeps cap rows (rows_or rows (end_job id s report reason now rows))
ended-Keeps cap id s report reason now rows p e =
    rw (end_job_admitted id s report reason now rows e) (
      updated-Keeps cap (running_at id) (ended_as s report reason now) rows (λ j. refl) (λ j. refl)
        (λ j _. p))

pub same-Keeps : (cap : ℕ) (rows rows' : Table) → rows' ≡ rows → Keeps cap rows rows'
same-Keeps cap rows rows' e = rw e (record { sound = λ a. a; ordered = λ d. d })
