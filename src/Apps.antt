-- ===== src/Apps.antt =====
-- Deploy of hub/internal/apps/apps.go: the steps it takes on a machine, in what order, and where it
-- stops. What the machine answers to a step may depend on the steps before it, and is an argument, as
-- is the compose gate; the steps are held newest first.
pub mod Inside
pub mod Careful
pub mod Exits
pub mod Examples
use Prim.Native.Char.{Char, code}
use Prim.Native.String
use homedash.Prelude.{
  ℕ, zero, suc, String, Bool, true, false, not, ◌&&◌, ◌||◌, Option, none, some, List, [], ◌∷◌, leb,
  ◌==◌, str_eq, if◌then◌else◌, any, all,
}
use homedash.Prelude.Text.{trim_space, is_empty, has_prefix}
use homedash.Hosts.{Status, unknown, online, offline, mismatch}

-- `strings.Split` at a slash: the piece before the first one, and the pieces after it.
unfoldable pub split_slash : String → String × List String
split_slash String.[] = ("", [])
split_slash (String.◌∷◌ c s) =
    let (piece, pieces) = split_slash s in
    if code c == 47 then ("", piece ∷ pieces) else (String.◌∷◌ c piece, pieces)

abbrev pub is_bad_piece : String → Bool
is_bad_piece p = is_empty p || str_eq p ".."

-- `safeRelPath`.
unfoldable pub safe_rel_path : String → Bool
unfolding split_slash
safe_rel_path p =
    let (piece, pieces) = split_slash p in
    not (is_empty p || has_prefix p "/") && not (any is_bad_piece (piece ∷ pieces))

unfoldable pub within : ℕ → ℕ → ℕ → Bool
within lo hi c = leb lo c && leb c hi

unfoldable pub is_first_char : Char → Bool
unfolding within
is_first_char c = within 97 122 (code c) || within 48 57 (code c)

unfoldable pub is_later_char : Char → Bool
unfolding is_first_char
is_later_char c = is_first_char c || code c == 95 || code c == 45

unfoldable pub later_chars : ℕ → String → Bool
unfolding is_later_char
later_chars most String.[] = true
later_chars zero (String.◌∷◌ c s) = false
later_chars (suc most) (String.◌∷◌ c s) = let rest = later_chars most s in is_later_char c && rest

-- `nameRe`.
unfoldable pub is_stack_name : String → Bool
unfolding later_chars is_first_char
is_stack_name String.[] = false
is_stack_name (String.◌∷◌ c s) = is_first_char c && later_chars 63 s

pub record SetupFile : Type 0 where
  pub path : String
  pub content : String

-- A step on the machine or in the hub's records. Paths are below the stack's directory; a command of
-- the entry runs there, through the gate, and may do anything that the gate lets through.
pub data Step : Type 0 where
  made_dir : Step
  wrote_setup : String → Step
  ran_setup : String → Step
  wrote_compose : Step
  wrote_env : Step
  brought_up : Step
  took_down : Step
  noted_rebuild : Step
  notified : Step

-- What the machine answers: none is an error, a refusal of the gate included; a command that ran has
-- an exit code.
pub record World : Type 0 where
  pub run : List Step → Step → Option ℕ
  pub write : List Step → Step → Bool
  pub compose : List Step → Step → Bool
  pub refusal : String → Option String

pub record Order : Type 0 where
  pub status : Status
  pub name : String
  pub compose : String
  pub env : String
  pub files : List SetupFile
  pub commands : List String
  pub by_agent : Bool

pub data Outcome : Type 0 where
  deployed : Outcome
  host_offline : Outcome
  bad_request : Outcome
  stopped : Outcome
  gate_refused : Outcome
  up_failed : Outcome

abbrev pub is_online : Status → Bool
is_online online = true
is_online _ = false

module _ (W : World) where
  unfoldable pub ran : Option ℕ → Bool
  ran none = false
  ran (some code) = true

  -- The files of the entry, in order: whether all were written.
  unfoldable pub write_files : List SetupFile → List Step → List Step × Bool
  write_files [] steps = (steps, true)
  write_files (f ∷ fs) steps =
      let rest = write_files fs (wrote_setup f.path ∷ steps) in
      if W.write steps (wrote_setup f.path) then rest else (wrote_setup f.path ∷ steps, false)

  -- The commands of the entry: an error ends them, an exit code does not.
  unfoldable pub run_setup : List String → List Step → List Step × Bool
  unfolding ran
  run_setup [] steps = (steps, true)
  run_setup (c ∷ cs) steps =
      let rest = run_setup cs (ran_setup c ∷ steps) in
      if ran (W.run steps (ran_setup c)) then rest else (ran_setup c ∷ steps, false)

  -- `up`, and what follows it: a failed deploy is removed.
  unfoldable pub bring_up : List Step → List Step × Outcome
  bring_up steps =
      if W.compose steps brought_up
      then (notified ∷ noted_rebuild ∷ brought_up ∷ steps, deployed)
      else (took_down ∷ brought_up ∷ steps, up_failed)

  unfoldable pub write_env : String → List Step → List Step × Outcome
  unfolding bring_up
  write_env env steps =
      if is_empty env
      then bring_up steps
      else if W.write steps wrote_env
      then bring_up (wrote_env ∷ steps)
      else (wrote_env ∷ steps, stopped)

  unfoldable pub write_compose : String → List Step → List Step × Outcome
  unfolding write_env
  write_compose env steps =
      if W.write steps wrote_compose
      then write_env env (wrote_compose ∷ steps)
      else (wrote_compose ∷ steps, stopped)

  abbrev pub is_refused : Option String → Bool
  is_refused none = false
  is_refused (some reason) = true

  -- The compose gate: an agent is refused, a person warned.
  unfoldable pub compose_gate : Order → List Step → List Step × Outcome
  unfolding write_compose
  compose_gate o steps =
      if is_refused (W.refusal o.compose) && o.by_agent
      then (steps, gate_refused)
      else write_compose o.env steps

  unfoldable pub after_setup : Order → List Step × Bool → List Step × Outcome
  unfolding compose_gate
  after_setup o (steps, false) = (steps, stopped)
  after_setup o (steps, true) = compose_gate o steps

  unfoldable pub after_files : Order → List Step × Bool → List Step × Outcome
  unfolding after_setup run_setup
  after_files o (steps, false) = (steps, stopped)
  after_files o (steps, true) = after_setup o (run_setup o.commands steps)

  unfoldable pub after_dir : Order → List Step × Bool → List Step × Outcome
  unfolding after_files write_files
  after_dir o (steps, false) = (steps, stopped)
  after_dir o (steps, true) = after_files o (write_files o.files steps)

  abbrev pub has_setup : Order → Bool
  has_setup o = any (λ f. true) o.files || any (λ c. true) o.commands

  unfoldable pub make_dir : Order → List Step × Bool
  unfolding ran
  make_dir o = if has_setup o then (made_dir ∷ [], ran (W.run [] made_dir)) else ([], true)

  -- `Deploy`: the steps, newest first, and the outcome.
  unfoldable pub deploy : Order → List Step × Outcome
  unfolding after_dir make_dir is_stack_name safe_rel_path
  deploy o =
      if not (is_online o.status)
      then ([], host_offline)
      else if not (is_stack_name o.name)
          || is_empty (trim_space o.compose)
          || any (λ f. not (safe_rel_path f.path)) o.files
      then ([], bad_request)
      else after_dir o (make_dir o)
