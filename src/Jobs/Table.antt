-- ===== src/Jobs/Table.antt =====
-- hub/internal/store/jobs.go: the statements on the jobs table. Rows stand newest first, so that
-- `ORDER BY id DESC` is the order of the list; a new row takes the id after the largest (rowid).
use homedash.Prelude.{
  ℕ, suc, String, Bool, not, ◌&&◌, ◌||◌, Option, none, some, List, [], ◌∷◌, map, ltb, ◌==◌, str_eq,
  if◌then◌else◌, any, all, keep, take,
}
use homedash.Jobs.{
  State, running, killed, check_state, is_running, Job, check_violated, Result, ok, err,
}

abbrev pub Table : Type 0
Table = List Job

-- One above the largest id.
unfoldable pub next_id : Table → ℕ
next_id [] = 1
next_id (j ∷ js) = suc j.id

-- INSERT, with the column defaults.
unfoldable pub create_job : ℕ → ℕ → String → String → String → ℕ → Table → ℕ × Table
unfolding next_id
create_job host_id window_id cwd model text timeout_s rows = (next_id rows, row ∷ rows)
  where
    row : Job
    row = record {
      id = next_id rows;
      host_id = host_id;
      cwd = cwd;
      window_id = window_id;
      model = model;
      text = text;
      rounds = 1;
      state = running;
      timeout_s = timeout_s;
      session = "";
      snapshot = "";
      report = "";
      changes = "";
      reason = "";
      ended = none;
    }

-- SELECT … WHERE id = ?; no row is `none`.
unfoldable pub find_job : ℕ → Table → Option Job
find_job id [] = none
find_job id (j ∷ js) = if j.id == id then some j else find_job id js

-- SELECT … ORDER BY id DESC LIMIT ?; host 0 is every host.
unfoldable pub list_jobs : ℕ → ℕ → Table → List Job
list_jobs host_id limit rows = take limit (keep (λ j. host_id == 0 || j.host_id == host_id) rows)

-- UPDATE … SET … WHERE …: every row that the condition picks.
unfoldable pub update_where : (Job → Bool) → (Job → Job) → Table → Table
update_where p f [] = []
update_where p f (j ∷ js) = (if p j then f j else j) ∷ update_where p f js

-- The statement fails as a whole if a row that it wrote violates the CHECK on the state.
unfoldable pub update_checked : (Job → Bool) → (Job → Job) → Table → Result Table
unfolding update_where
update_checked p f rows =
    if all (λ j. not (p j) || check_state (f j).state) rows
    then ok (update_where p f rows)
    else err check_violated

abbrev at_id : ℕ → Job → Bool
at_id id j = j.id == id

-- WHERE id = ? AND state = 'running'.
abbrev pub running_at : ℕ → Job → Bool
running_at id j = j.id == id && is_running j.state

unfoldable pub set_session : ℕ → String → Table → Table
unfolding update_where
set_session id session =
    update_where (λ j. j.id == id && str_eq j.session "") (λ j. record j { session = session })

unfoldable pub set_snapshot : ℕ → String → Table → Table
unfolding update_where
set_snapshot id kind = update_where (at_id id) (λ j. record j { snapshot = kind })

unfoldable pub set_changes : ℕ → String → Table → Table
unfolding update_where
set_changes id changes = update_where (at_id id) (λ j. record j { changes = changes })

unfoldable pub start_round : ℕ → Table → Table
unfolding update_where
start_round id =
    update_where (at_id id)
      (λ j. record j { rounds = suc j.rounds; state = running; ended = none; reason = "" })

-- What EndJob writes.
abbrev pub ended_as : State → String → String → ℕ → Job → Job
ended_as state report reason now j = record j {
  state = state;
  report = report;
  reason = reason;
  ended = some now;
}

unfoldable pub end_job : ℕ → State → String → String → ℕ → Table → Result Table
unfolding update_checked
end_job id state report reason now =
    update_checked (running_at id) (ended_as state report reason now)

abbrev pub killed_as : String → ℕ → Job → Job
killed_as reason now j = record j { state = killed; reason = reason; ended = some now }

-- The rows, and whether this call was the one that took effect.
unfoldable pub kill_job : ℕ → String → ℕ → Table → Result (Table × Bool)
unfolding update_checked
kill_job id reason now rows = elim (update_checked (running_at id) (killed_as reason now) rows) [
  | ok rows' ↦ ok (rows', any (running_at id) rows)
  | err e ↦ err e
]

abbrev pub at_host : ℕ → Job → Bool
at_host host_id j = j.host_id == host_id

abbrev pub ids : Table → List ℕ
ids = map (λ j. j.id)

abbrev pub is_in : List ℕ → ℕ → Bool
is_in xs x = any (λ y. x == y) xs

-- The ids that the inner SELECT of TrimJobs keeps.
abbrev pub newest : ℕ → ℕ → Table → List ℕ
newest host_id n rows = take n (ids (keep (at_host host_id) rows))

abbrev pub at_least_five : ℕ → ℕ
at_least_five n = if ltb n 5 then 5 else n

abbrev trims : ℕ → ℕ → Table → Job → Bool
trims host_id n rows j =
    at_host host_id j
    && not (is_running j.state)
    && not (is_in (newest host_id (at_least_five n) rows) j.id)

-- The rows that stay, and the ids that went.
unfoldable pub trim_jobs : ℕ → ℕ → Table → Table × List ℕ
trim_jobs host_id n rows =
    (keep (λ j. not (trims host_id n rows j)) rows, ids (keep (trims host_id n rows) rows))

-- The rows that stay, and the host and id of each that went.
unfoldable pub clear_jobs : Table → Table × List (ℕ × ℕ)
clear_jobs rows = (
  keep (λ j. is_running j.state) rows,
  map (λ j. (j.host_id, j.id)) (keep (λ j. not (is_running j.state)) rows),
)
