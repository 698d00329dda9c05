-- ===== src/Jobs/Reachable.antt =====
-- What holds of the jobs table after any history of calls.
use mathlib.Core.Path.{subst}
use homedash.Prelude.{
  ℕ, suc, ◌≤◌, ◌≡◌, refl, ◌∙◌, sym, inl, inr, ◌⊎◌, String, Bool, Option, none, some, List, [], ◌∷◌,
  arith, Option-cases,
}
use homedash.Settings.{setting_int-pos}
use homedash.Hosts.{Host}
use homedash.Jobs.{Job, check_state, done, failed, needs_you}
use homedash.Jobs.Table.{
  Table, create_job, find_job, start_round, set_session, set_snapshot, set_changes, trim_jobs,
  clear_jobs, next_id,
}
use homedash.Jobs.Updates.{Descending, Descending-next_id, Descending-update_where, find_job-All}
use homedash.Jobs.Outcomes.{find_job_id, end_job_after_end}
use homedash.Jobs.Control.{Hub, start, correct, kill, rollback, clear}
use homedash.Jobs.Lifecycle.{
  Call, starts, corrects, kills, rolls_back, clears, completes, fails, sets_session, sets_snapshot,
  sets_changes, trims, step, run,
}
use homedash.Jobs.Statements.{
  Sound, Keeps, Inv, updated-Keeps, kept-Keeps, ended-Keeps, same-Keeps, kill_rows, start_rows,
  correct_rows, start_round-AllSound,
}

setting_kept : (hub : Hub) (c : Call) → (step hub c).setting ≡ hub.setting
unfolding step start correct kill rollback clear
setting_kept hub (starts h cwd text window dials dir) = ground arith
setting_kept hub (corrects id text now) = ground arith
setting_kept hub (kills id now) = ground arith
setting_kept hub (rolls_back id dials out) = ground arith
setting_kept hub _ = refl

create-Keeps :
    (cap h window : ℕ) (cwd model text : String) (timeout : ℕ) (rows : Table)
    → 1 ≤ cap
    → Keeps cap rows (create_job h window cwd model text timeout rows).1
unfolding create_job next_id
create-Keeps cap h window cwd model text timeout rows pos = record {
  sound = λ a. (record { state = inl refl; started = omega arith; capped = pos }, a);
  ordered = λ d. (omega arith, d);
}

start-Keeps :
    (cap : ℕ) (hub : Hub) (h : Host) (cwd text : String) (window : ℕ) (dials dir : Bool)
    → 1 ≤ cap
    → Keeps cap hub.jobs (start hub h cwd text window dials dir).1.jobs
start-Keeps cap hub h cwd text window dials dir pos =
    elim (start_rows hub h cwd text window dials dir) [
      | inl e ↦ same-Keeps cap _ _ e
      | inr e ↦ rw e (create-Keeps cap _ _ _ _ _ _ hub.jobs pos)
    ]

rollback_rows :
    (hub : Hub) (id : ℕ) (dials : Bool) (kind : String)
    → ((rollback hub id dials (some kind)).1.jobs ≡ hub.jobs)
      ⊎ ((rollback hub id dials (some kind)).1.jobs ≡ set_snapshot id kind hub.jobs)
unfolding rollback
rollback_rows hub id dials kind = elim (Option-cases (find_job id hub.jobs)) [
  | inl e ↦ ground (arith, e)
  | inr (job, e) ↦ ground (arith, e, find_job_id id hub.jobs e)
]

no_rollback_rows :
    (hub : Hub) (id : ℕ) (dials : Bool) → (rollback hub id dials none).1.jobs ≡ hub.jobs
unfolding rollback
no_rollback_rows hub id dials = ground arith

snapshot-Keeps :
    (cap id : ℕ) (kind : String) (rows : Table) → Keeps cap rows (set_snapshot id kind rows)
unfolding set_snapshot
snapshot-Keeps cap id kind rows = updated-Keeps cap _ _ rows (λ j. refl) (λ j. refl) (λ j p. p)

rollback-Keeps :
    (cap : ℕ) (hub : Hub) (id : ℕ) (dials : Bool) (out : Option String)
    → Keeps cap hub.jobs (rollback hub id dials out).1.jobs
rollback-Keeps cap hub id dials none = same-Keeps cap _ _ (no_rollback_rows hub id dials)
rollback-Keeps cap hub id dials (some kind) = elim (rollback_rows hub id dials kind) [
  | inl e ↦ same-Keeps cap _ _ e
  | inr e ↦ rw e (snapshot-Keeps cap id kind hub.jobs)
]

-- A sound row that is to get another round has room for it.
room :
    (cap n : ℕ) {j : Job}
    → n ≡ cap
    → (suc j.rounds ≤ n) ⊎ (j.state ≡ needs_you)
    → Sound cap j
    → suc j.rounds ≤ cap
room cap n e (inl below) s = omega arith
room cap n e (inr waits) s = absurd (ground (arith, s.state))

round-Keeps :
    (cap id : ℕ) (rows : Table) {j : Job}
    → Descending (next_id rows) rows
    → find_job id rows ≡ some j
    → suc j.rounds ≤ cap
    → Keeps cap rows (start_round id rows)
round-Keeps cap id rows d e below = record {
  sound = start_round-AllSound cap id _ rows d e below;
  ordered = λ _.
      unfold start_round in
      Descending-next_id _ _ (Descending-update_where _ _ _ rows (λ j. refl) d);
}

correct-Keeps :
    (cap : ℕ) (hub : Hub) (id : ℕ) (text : String) (now : ℕ)
    → Inv cap hub
    → Keeps cap hub.jobs (correct hub id text now).1.jobs
correct-Keeps cap hub id text now v = elim (Option-cases (find_job id hub.jobs)) [
  | inl e ↦ same-Keeps cap _ _ (unfold correct in ground (arith, e))
  | inr (job, e) ↦
      let at : find_job job.id hub.jobs ≡ some job =
        subst (λ i. find_job i hub.jobs ≡ some job) (sym (find_job_id id hub.jobs e)) e in
      elim (correct_rows hub id text now e) [
        | inl same ↦ same-Keeps cap _ _ same
        | inr (inl (stopped, marked)) ↦ same-Keeps cap _ _ (
            marked
            ∙ rw (
                end_job_after_end job.id _ needs_you job.report "reached the round cap" now hub.jobs
                  v.ordered (unfold check_state in refl) at stopped))
        | inr (inr (below, more)) ↦ rw more (
            round-Keeps cap job.id hub.jobs v.ordered at
              (room cap _ v.setting below (find_job-All (Sound cap) id hub.jobs e v.sound)))
      ]
]

-- One call keeps the rows sound and in order.
step-Keeps :
    (cap : ℕ) (hub : Hub) (c : Call) → 1 ≤ cap → Inv cap hub → Keeps cap hub.jobs (step hub c).jobs
unfolding step clear trim_jobs clear_jobs set_session set_changes check_state
step-Keeps cap hub (starts h cwd text window dials dir) pos v =
    start-Keeps cap hub h cwd text window dials dir pos
step-Keeps cap hub (corrects id text now) pos v = correct-Keeps cap hub id text now v
step-Keeps cap hub (kills id now) pos v = same-Keeps cap _ _ (kill_rows hub id now)
step-Keeps cap hub (rolls_back id dials out) pos v = rollback-Keeps cap hub id dials out
step-Keeps cap hub clears pos v = kept-Keeps cap _ hub.jobs
step-Keeps cap hub (completes id report reason now) pos v =
    ended-Keeps cap id done report reason now hub.jobs (inr (inl refl)) refl
step-Keeps cap hub (fails id report reason now) pos v =
    ended-Keeps cap id failed report reason now hub.jobs (inr (inr refl)) refl
step-Keeps cap hub (sets_session id s) pos v =
    updated-Keeps cap _ _ hub.jobs (λ j. refl) (λ j. refl) (λ j p. p)
step-Keeps cap hub (sets_snapshot id s) pos v = snapshot-Keeps cap id s hub.jobs
step-Keeps cap hub (sets_changes id s) pos v =
    updated-Keeps cap _ _ hub.jobs (λ j. refl) (λ j. refl) (λ j p. p)
step-Keeps cap hub (trims host n) pos v = kept-Keeps cap _ hub.jobs

step-Inv : (cap : ℕ) (hub : Hub) (c : Call) → Inv cap hub → Inv cap (step hub c)
step-Inv cap hub c v = record {
  sound = k.sound v.sound;
  ordered = k.ordered v.ordered;
  setting = rw (setting_kept hub c) v.setting;
}
  where
    k : Keeps cap hub.jobs (step hub c).jobs
    k =
        step-Keeps cap hub c
          (rw (← v.setting) (setting_int-pos hub.setting "agent.rounds" 3 (omega arith))) v

-- From a hub where every row is running, done or failed, its rounds lie between one and the cap, the
-- ids fall along the table and the cap is the setting's, all of this holds after any history of calls
-- too: a row never waits for a person, nor is one killed.
pub run-Inv : (cap : ℕ) (hub : Hub) (cs : List Call) → Inv cap hub → Inv cap (run hub cs)
unfolding run
run-Inv cap hub [] v = v
run-Inv cap hub (c ∷ cs) v = run-Inv cap (step hub c) cs (step-Inv cap hub c v)
