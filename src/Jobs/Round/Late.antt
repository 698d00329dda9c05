-- ===== src/Jobs/Round/Late.antt =====
-- A round of hub/internal/agent/jobs.go whose context ends before it does: what is left of the states.
use Prim.Native.String
use homedash.Prelude.{
  ℕ, ◌≡◌, refl, ◌∙◌, String, Bool, true, false, not, ◌&&◌, ◌||◌, Option, none, some, List, [], ◌∷◌,
  map, keep, str_eq, ◌==◌, Bool-cases, inl, inr, if-either, if◌then◌else◌,
}
use homedash.Prelude.Text.{trim_space}
use homedash.Jobs.{State, failed, Job}
use homedash.Jobs.Table.{Table, update_where, set_session, set_snapshot, set_changes}
use homedash.Jobs.Round.{
  Usage, Message, Event, Hold, unchecked, checked, Remote, Trace, with_jobs, log, log_if, notify,
  finish, record_usage, or_old, is_text, on_message, on_event, scan, check_hold, parse_changes,
  keep_changes, snapshot_kind, end_state, log_stderr, run_omp, take_snapshot, round,
}

abbrev pub states : Table → List State
states = map (λ j. j.state)

update_where-states :
    (p : Job → Bool) (f : Job → Job) (rows : Table)
    → ((j : Job) → (f j).state ≡ j.state)
    → states (update_where p f rows) ≡ states rows
unfolding update_where
update_where-states p f [] h = refl
update_where-states p f (j ∷ js) h = elim (Bool-cases (p j)) [
  | inl e ↦ rw (e, h j, update_where-states p f js h) refl
  | inr e ↦ rw (e, update_where-states p f js h) refl
]

set_session-states :
    (id : ℕ) (session : String) (rows : Table) → states (set_session id session rows) ≡ states rows
unfolding set_session
set_session-states id session rows =
    update_where-states (λ j. j.id == id && str_eq j.session "")
      (λ j. record j { session = session }) rows (λ j. refl)

set_snapshot-states :
    (id : ℕ) (kind : String) (rows : Table) → states (set_snapshot id kind rows) ≡ states rows
unfolding set_snapshot
set_snapshot-states id kind rows =
    update_where-states (λ j. j.id == id) (λ j. record j { snapshot = kind }) rows (λ j. refl)

set_changes-states :
    (id : ℕ) (changes : String) (rows : Table) → states (set_changes id changes rows) ≡ states rows
unfolding set_changes
set_changes-states id changes rows =
    update_where-states (λ j. j.id == id) (λ j. record j { changes = changes }) rows (λ j. refl)

-- The rows have the states that the rows before had.
pub record Kept (rows : Table) (t : Trace) : Type 0 where
  pub kept : states t.jobs ≡ states rows

module _ (rows : Table) where
  log_if-Kept : (lives : Bool) (t : Trace) (s : String) → Kept rows t → Kept rows (log_if lives t s)
  log_if-Kept lives t s k = if-either (Kept rows) lives (log t s) t (record { kept = k.kept }) k

  notify-Kept : (t : Trace) (s : String) (id : ℕ) → Kept rows t → Kept rows (notify t s id)
  notify-Kept t s id k = record { kept = k.kept }

  usage-Kept : (u : Option Usage) (t : Trace) → Kept rows t → Kept rows (record_usage u t)
  usage-Kept none t k = k
  usage-Kept (some u) t k = record { kept = k.kept }

  on_message-Kept :
      (m : Option Message) (u : Option Usage) (t : Trace) (report : String)
      → Kept rows t
      → Kept rows (on_message m u t report).0
  unfolding on_message
  on_message-Kept none u t report k = k
  on_message-Kept (some m) u t report k =
      if-either (λ (r : Trace × String). Kept rows r.0) (str_eq m.role "assistant")
        (record_usage u t, or_old report (map (λ p. p.text) (keep is_text m.content))) (t, report)
        (usage-Kept u t k) k

  on_event-Kept :
      (job : Job) (ev : Option Event) (t : Trace) (report : String)
      → Kept rows t
      → Kept rows (on_event job ev t report).0
  unfolding on_event
  on_event-Kept job none t report k = k
  on_event-Kept job (some ev) t report k =
      if-either (λ (r : Trace × String). Kept rows r.0)
        (str_eq ev.kind "session" && not (str_eq ev.id ""))
        (with_jobs t (set_session job.id ev.id t.jobs), report)
        (if str_eq ev.kind "message_end"
          then on_message ev.message ev.usage t report
          else (t, report))
        (record { kept = set_session-states job.id ev.id t.jobs ∙ k.kept })
        (if-either (λ (r : Trace × String). Kept rows r.0) (str_eq ev.kind "message_end")
          (on_message ev.message ev.usage t report) (t, report)
          (on_message-Kept ev.message ev.usage t report k) k)

  scan-Kept :
      (job : Job) (lines : List (String × Option Event × Bool)) (t : Trace) (report : String)
      → Kept rows t
      → Kept rows (scan job lines t report).0
  unfolding scan
  scan-Kept job [] t report k = k
  scan-Kept job ((line, ev, lives) ∷ rest) t report k =
      let r = on_event job ev (log t line) report in
      let blank = str_eq (trim_space line) "" in
      scan-Kept job rest (if blank || not lives then t else r.0) (if blank then report else r.1) (
        if-either (Kept rows) (blank || not lives) t r.0 k
          (on_event-Kept job ev (log t line) report (record { kept = k.kept })))

  check_hold-Kept :
      (job : Job) (hold : Hold) (lives : Bool) (t : Trace)
      → Kept rows t
      → Kept rows (check_hold job hold lives t)
  unfolding check_hold
  check_hold-Kept job (unchecked why) lives t k =
      notify-Kept (log_if lives t "hold: unchecked") _ _ (log_if-Kept lives t "hold: unchecked" k)
  check_hold-Kept job (checked restored broken) lives t k =
      if-either (Kept rows) (str_eq broken "") t' _ first
        (notify-Kept (log_if lives t' _) _ _ (log_if-Kept lives t' _ first))
    where
      t' : Trace
      t' =
          if str_eq restored ""
          then t
          else notify (log_if lives t (String.◌++◌ "restored: " restored)) "host.hold_repaired"
              job.id

      first : Kept rows t'
      first =
          if-either (Kept rows) (str_eq restored "") t _ k
            (notify-Kept (log_if lives t _) _ _ (log_if-Kept lives t _ k))

  keep_changes-Kept :
      (job : Job) (lives : Bool) (changes bad : String) (t : Trace)
      → Kept rows t
      → Kept rows (keep_changes job lives (changes, bad) t)
  unfolding keep_changes
  keep_changes-Kept job lives changes bad t k =
      let said = log t (String.◌++◌ "change report: " bad) in
      let set = with_jobs t (set_changes job.id changes t.jobs) in
      let has = if not (str_eq changes "") then set else t in
      if-either (Kept rows) (not lives) t (if not (str_eq bad "") then said else has) k (
        if-either (Kept rows) (not (str_eq bad "")) said has (record { kept = k.kept })
          (if-either (Kept rows) (not (str_eq changes "")) set t
            (record { kept = set_changes-states job.id changes t.jobs ∙ k.kept }) k))

  snapshot-Kept :
      (job : Job) (lives : Bool) (kind : Option String) (t : Trace)
      → Kept rows t
      → Kept rows (take_snapshot job lives kind t)
  unfolding take_snapshot
  snapshot-Kept job lives none t k =
      let t' = with_jobs t (set_snapshot job.id (snapshot_kind none) t.jobs) in
      if-either (Kept rows) lives (log t' "snapshot: failed") t
        (record { kept = set_snapshot-states job.id (snapshot_kind none) t.jobs ∙ k.kept }) k
  snapshot-Kept job lives (some kind) t k =
      if-either (Kept rows) lives
        (with_jobs t (set_snapshot job.id (snapshot_kind (some kind)) t.jobs)) t
        (record { kept = set_snapshot-states job.id (snapshot_kind (some kind)) t.jobs ∙ k.kept }) k

  finish-Kept :
      (job : Job) (connected lives : Bool) (now : ℕ) (s : State) (report reason : String)
      (t : Trace)
      → lives ≡ false
      → Kept rows t
      → Kept rows (finish job connected lives now s report reason t)
  unfolding finish
  finish-Kept job connected lives now s report reason t e k = rw (e) record { kept = k.kept }

  run_omp-Kept :
      (job : Job) (remote : Remote) (now : ℕ) (t : Trace)
      → remote.lives_at_end ≡ false
      → Kept rows t
      → Kept rows (run_omp job remote now t)
  unfolding run_omp
  run_omp-Kept job remote now t e k =
      let lives = remote.lives_after_stream in
      let r = scan job remote.stream t "" in
      let told = log_stderr lives remote.stderr r.0 in
      let held = check_hold job remote.hold lives told in
      let found = parse_changes remote.compact r.1 in
      let a = scan-Kept job remote.stream t "" k in
      let b : Kept rows told =
        if-either (Kept rows) (str_eq (trim_space remote.stderr) "") r.0
          (log_if lives r.0 (trim_space remote.stderr)) a
          (log_if-Kept lives r.0 (trim_space remote.stderr) a) in
      finish-Kept job true remote.lives_at_end now (end_state remote.ending) _ _ _ e (
        keep_changes-Kept job lives found.0 found.1 held
          (check_hold-Kept job remote.hold lives told b))

-- A round whose context has ended when it does leaves every row the state it had.
pub round-Kept :
    (job : Job) (connected : Bool) (remote : Remote) (now : ℕ) (t : Trace)
    → remote.lives_at_end ≡ false
    → Kept t.jobs (round job connected remote now t)
unfolding round
round-Kept job connected remote now t e =
    if-either (Kept t.jobs) (not connected && not remote.dials) _ _
      (finish-Kept t.jobs job false lives now failed "" "cannot connect" t e start)
      (if-either (Kept t.jobs) (not remote.arms) _ _
        (finish-Kept t.jobs job true lives now failed "" "could not write the hook" t' e taken)
        (if-either (Kept t.jobs) (not remote.session_opens) _ _
          (finish-Kept t.jobs job true lives now failed "" "no session" t' e taken)
          (run_omp-Kept t.jobs job remote now t' e taken)))
  where
    lives : Bool
    lives = remote.lives_at_end

    start : Kept t.jobs t
    start = record { kept = refl }

    t' : Trace
    t' = take_snapshot job remote.lives_at_snapshot remote.snapshot t

    taken : Kept t.jobs t'
    taken = snapshot-Kept t.jobs job remote.lives_at_snapshot remote.snapshot t start
