-- ===== src/Jobs/Round.antt =====
-- hub/internal/agent/jobs.go: `round`, with `checkHold` and `parseChanges`. What the remote does is
-- an argument: each step that can fail, the lines of omp's stream with the event that each one
-- decodes to, and how the process ended. JSON is decoded outside the model.
pub mod Late
pub mod Ends
use Prim.Native.Char.{code}
use Prim.Native.String
use homedash.Prelude.{
  ℕ, ◌+◌, ltb, leb, String, Bool, true, false, not, ◌&&◌, ◌||◌, Option, none, some, List, [], ◌∷◌,
  ◌++◌, map, keep, str_eq, if◌then◌else◌,
}
use homedash.Prelude.Text.{trim_space, after_last, before_first}
use homedash.Settings.{setting_int}
use homedash.Hosts.{decimal}
use homedash.Jobs.{State, done, failed, Job, Result, ok, err}
use homedash.Jobs.Table.{Table, end_job, set_session, set_snapshot, set_changes, trim_jobs}
use homedash.Jobs.Control.{Hub}

pub record Usage : Type 0 where
  pub model : String
  pub input : ℕ
  pub output : ℕ
  pub cache_read : ℕ
  pub cache_write : ℕ

-- One part of an assistant's message: its type and its text.
pub record Part : Type 0 where
  pub kind : String
  pub text : String

pub record Message : Type 0 where
  pub role : String
  pub content : List Part

pub record Event : Type 0 where
  pub kind : String
  pub id : String
  pub message : Option Message
  pub usage : Option Usage

-- How `s.Wait` ends.
pub data Ending : Type 0 where
  exited : Ending
  exit_error : ℕ → String → Ending  -- status and signal
  wait_failed : String → Ending

-- What CheckHold answers.
pub data Hold : Type 0 where
  unchecked : String → Hold
  checked : String → String → Hold  -- restored, broken

-- What the machine answers to one round. The round has a context that ends two minutes after the time
-- allowed, and a write that is made later fails: whether it still lives at the snapshot, at the write
-- of each line, after the last line and at the end is part of it.
pub record Remote : Type 0 where
  pub dials : Bool
  pub snapshot : Option String
  pub lives_at_snapshot : Bool
  pub arms : Bool
  pub session_opens : Bool
  pub stream : List (String × Option Event × Bool)
  pub ending : Ending
  pub out_of_time : Bool
  pub lives_after_stream : Bool
  pub lives_at_end : Bool
  pub stderr : String
  pub hold : Hold
  pub compact : String → Option String  -- JSON: the object, or not one

-- The hub, the job's event log, the usage rows, and the snapshots deleted on the remote.
pub record Trace : Type 0 where
  pub hub : Hub
  pub open hub use {jobs, setting}
  pub events : List String
  pub usages : List Usage
  pub deleted : List ℕ

abbrev or_same : Table → Result Table → Table
or_same rows (ok rows') = rows'
or_same rows (err e) = rows

abbrev with_jobs : Trace → Table → Trace
with_jobs t rows = record t { hub = record t.hub { jobs = rows } }

abbrev log : Trace → String → Trace
log t line = record t { events = t.events ++ line ∷ [] }

abbrev log_if : Bool → Trace → String → Trace
log_if lives t line = if lives then log t line else t

abbrev notify : Trace → String → ℕ → Trace
notify t kind id = record t { hub = record t.hub { notes = t.hub.notes ++ (kind, id) ∷ [] } }

abbrev is_failed : State → Bool
is_failed failed = true
is_failed _ = false

-- The closure `end`: the row, the notification, then the retention, whose snapshots are deleted
-- over the connection if there is one. The errors of the store are dropped: on a context that has
-- ended, neither the row nor the retention is written.
unfoldable pub finish : Job → Bool → Bool → ℕ → State → String → String → Trace → Trace
finish job connected lives now state report reason t =
    let ended =
      if lives then or_same t.jobs (end_job job.id state report reason now t.jobs) else t.jobs in
    let told = if is_failed state then notify t "job.failed" job.id else t in
    let (rows, gone) =
      if lives
      then trim_jobs job.host_id (setting_int t.setting "jobs.retention" 20) ended
      else (ended, []) in
    record (with_jobs told rows) { deleted = t.deleted ++ (if connected then gone else []) }

join_lines : List String → String
join_lines [] = ""
join_lines (s ∷ []) = s
join_lines (s ∷ t ∷ r) = String.◌++◌ s (String.◌++◌ "\n" (join_lines (t ∷ r)))

abbrev is_text : Part → Bool
is_text p = str_eq p.kind "text" && not (str_eq (trim_space p.text) "")

abbrev or_old : String → List String → String
or_old report [] = report
or_old report (s ∷ r) = join_lines (s ∷ r)

abbrev record_usage : Option Usage → Trace → Trace
record_usage none t = t
record_usage (some u) t = record t { usages = t.usages ++ u ∷ [] }

-- A message of the assistant: its text parts are the report so far.
on_message : Option Message → Option Usage → Trace → String → Trace × String
unfolding join_lines
on_message none usage t report = (t, report)
on_message (some m) usage t report =
    if str_eq m.role "assistant"
    then (record_usage usage t, or_old report (map (λ p. p.text) (keep is_text m.content)))
    else (t, report)

on_event : Job → Option Event → Trace → String → Trace × String
unfolding on_message
on_event job none t report = (t, report)
on_event job (some ev) t report =
    if str_eq ev.kind "session" && not (str_eq ev.id "")
    then (with_jobs t (set_session job.id ev.id t.jobs), report)
    else if str_eq ev.kind "message_end"
    then on_message ev.message ev.usage t report
    else (t, report)

-- The loop over the lines; each line that is not blank is kept. A line after the context's end is
-- neither kept nor its event written, and its text is part of the report still.
unfoldable pub scan : Job → List (String × Option Event × Bool) → Trace → String → Trace × String
unfolding on_event
scan job [] t report = (t, report)
scan job ((line, ev, lives) ∷ rest) t report =
    let (t', report') = on_event job ev (log t line) report in
    let blank = str_eq (trim_space line) "" in
    scan job rest (if blank || not lives then t else t') (if blank then report else report')

check_hold : Job → Hold → Bool → Trace → Trace
check_hold job (unchecked why) lives t =
    notify (log_if lives t "hold: unchecked") "host.hold_unchecked" job.id
check_hold job (checked restored broken) lives t =
    let t' =
      if str_eq restored ""
      then t
      else notify (log_if lives t (String.◌++◌ "restored: " restored)) "host.hold_repaired"
          job.id in
    if str_eq broken ""
    then t'
    else notify (log_if lives t' (String.◌++◌ "broken: " broken)) "host.hold_broken" job.id

abbrev pub fence : String
fence = "```homedash-changes"

abbrev closed_block : (String → Option String) → Option String → String × String
closed_block compact none = ("", "the homedash-changes block is not closed")
closed_block compact (some body) = elim (compact (trim_space body)) [
  | none ↦ ("", "the homedash-changes block is not a JSON object")
  | some out ↦ (out, "")
]

-- The last block of changes in a report, and what is wrong with it.
unfoldable pub parse_changes : (String → Option String) → String → String × String
parse_changes compact report = elim (after_last report fence) [
  | none ↦ ("", "")
  | some body ↦ closed_block compact (before_first body "```")
]

keep_changes : Job → Bool → String × String → Trace → Trace
keep_changes job lives (changes, bad) t =
    if not lives
    then t
    else if not (str_eq bad "")
    then log t (String.◌++◌ "change report: " bad)
    else if not (str_eq changes "")
    then with_jobs t (set_changes job.id changes t.jobs)
    else t

-- The bytes of a character in UTF-8.
abbrev width : ℕ → ℕ
width c = if ltb c 128 then 1 else if ltb c 2048 then 2 else if ltb c 65536 then 3 else 4

bytes : String → ℕ
bytes String.[] = 0
bytes (String.◌∷◌ c s) = width (code c) + bytes s

-- The end of a text within a number of bytes; a character that Go would cut is dropped whole.
last_bytes : ℕ → String → String
unfolding bytes
last_bytes n String.[] = ""
last_bytes n (String.◌∷◌ c s) =
    let rest = last_bytes n s in if leb (bytes (String.◌∷◌ c s)) n then String.◌∷◌ c s else rest

last_line : String → String
unfolding last_bytes
last_line s =
    last_bytes 300
      (elim (after_last (trim_space s) "\n") [ none ↦ trim_space s | some line ↦ line ])

exit_reason : ℕ → String → Bool → String → String
unfolding last_line
exit_reason status signal out_of_time stderr =
    let why =
      if out_of_time
      then "ran out of the time allowed"
      else String.◌++◌ "omp exited " (decimal status) in
    let line = last_line stderr in
    if str_eq signal "KILL"
    then "omp was killed"
    else if str_eq line ""
    then why
    else String.◌++◌ why (String.◌++◌ ": " line)

end_state : Ending → State
end_state exited = done
end_state (exit_error status signal) = failed
end_state (wait_failed why) = failed

end_reason : Ending → Bool → String → String
unfolding exit_reason
end_reason exited late stderr = ""
end_reason (exit_error status signal) late stderr = exit_reason status signal late stderr
end_reason (wait_failed why) late stderr = why

snapshot_kind : Option String → String
snapshot_kind none = "none"
snapshot_kind (some kind) = kind

abbrev log_stderr : Bool → String → Trace → Trace
log_stderr lives stderr t =
    if str_eq (trim_space stderr) "" then t else log_if lives t (trim_space stderr)

-- From the stream to the end of the round.
run_omp : Job → Remote → ℕ → Trace → Trace
unfolding check_hold keep_changes end_state end_reason
run_omp job remote now t =
    let (t', report) = scan job remote.stream t "" in
    let lives = remote.lives_after_stream in
    let held = check_hold job remote.hold lives (log_stderr lives remote.stderr t') in
    finish job true remote.lives_at_end now (end_state remote.ending) report
      (end_reason remote.ending remote.out_of_time remote.stderr)
      (keep_changes job lives (parse_changes remote.compact report) held)

-- The snapshot is taken before anything changes; one that fails is recorded as none.
take_snapshot : Job → Bool → Option String → Trace → Trace
unfolding snapshot_kind
take_snapshot job lives kind t =
    let t' = with_jobs t (set_snapshot job.id (snapshot_kind kind) t.jobs) in
    if lives then (elim kind [ none ↦ log t' "snapshot: failed" | some k ↦ t' ]) else t

-- `connected`: Start hands its connection over.
unfoldable pub round : Job → Bool → Remote → ℕ → Trace → Trace
unfolding take_snapshot run_omp
round job connected remote now t =
    let lives = remote.lives_at_end in
    if not connected && not remote.dials
    then finish job false lives now failed "" "cannot connect" t
    else let t' = take_snapshot job remote.lives_at_snapshot remote.snapshot t in
      if not remote.arms
      then finish job true lives now failed "" "could not write the hook" t'
      else if not remote.session_opens
      then finish job true lives now failed "" "no session" t'
      else run_omp job remote now t'
