-- ===== src/Server/Health.antt =====
-- hub/internal/server/health.go: the hub's report on itself. The texts that go with a line are left
-- out; whether the load is over the cores, a comparison of floats, is an argument. A `uint64` wraps.
use Prim.Native.Char.{code}
use Prim.Native.Nat.{◌/◌, ◌%◌, ◌^◌}
use homedash.Prelude.{
  ℕ, suc, ◌+◌, ◌-◌, ◌*◌, String, Bool, true, false, not, ◌&&◌, ◌||◌, Option, none, some, List, [],
  ◌∷◌, ◌++◌, ltb, leb, ◌==◌, str_eq, if◌then◌else◌, length,
}
use homedash.Prelude.Text.{fields, digits}
use homedash.Hosts.{Status, online, mismatch}

pub data State : Type 0 where
  healthy : State
  warn : State
  bad : State
  off : State

pub record Check : Type 0 where
  pub name : String
  pub state : State

-- `strings.Cut(line, ":")`.
unfoldable pub cut_colon : String → Option (String × String)
cut_colon String.[] = none
cut_colon (String.◌∷◌ c s) =
    let rest = cut_colon s in
    if code c == 58
    then some ("", s)
    else elim rest [ none ↦ none | some (k, v) ↦ some (String.◌∷◌ c k, v) ]

-- `strconv.ParseUint`, its error dropped: 0 for what is no number, the largest for one out of range.
unfoldable pub parse_uint : Option ℕ → ℕ
parse_uint none = 0
parse_uint (some n) = if ltb n (2 ^ 64) then n else 2 ^ 64 - 1

abbrev is_kb : List String → Bool
is_kb [] = false
is_kb (w ∷ ws) = str_eq w "kB"

unfoldable pub value_of : List String → ℕ
unfolding parse_uint
value_of [] = 0
value_of (w ∷ ws) = let n = parse_uint (digits 0 w) in if is_kb ws then n * 1024 % 2 ^ 64 else n

-- `procKV`.
unfoldable pub proc_kv : String → String × ℕ
unfolding cut_colon value_of
proc_kv line = elim (cut_colon line) [
  | none ↦ ("", 0)
  | some (k, rest) ↦ (k, value_of (fields rest))
]

-- What /proc/meminfo gives of the two lines that the report reads.
unfoldable pub scan_memory : List String → ℕ × ℕ → ℕ × ℕ
unfolding proc_kv
scan_memory [] (total, avail) = (total, avail)
scan_memory (l ∷ ls) (total, avail) =
    let (k, v) = proc_kv l in
    scan_memory ls (
      if str_eq k "MemTotal"
      then (v, avail)
      else if str_eq k "MemAvailable"
      then (total, v)
      else (total, avail))

-- The memory of the machine: in all, and in use.
unfoldable pub read_memory : List String → ℕ × ℕ
unfolding scan_memory
read_memory lines =
    let (total, avail) = scan_memory lines (0, 0) in
    if ltb 0 total then (total, (total + 2 ^ 64 - avail) % 2 ^ 64) else (0, 0)

unfoldable pub pct_state : ℕ → ℕ → ℕ → State
pct_state pct limit soft =
    if leb limit pct then bad else if ltb 0 soft && leb soft pct then warn else healthy

-- What the report is made of.
pub record Facts : Type 0 where
  pub mem_total : ℕ
  pub mem_used : ℕ
  pub cores : ℕ
  pub over_load : Bool
  pub disk_size : ℕ
  pub disk_free : ℕ
  pub disk_limit : ℕ
  pub agent_ready : Bool
  pub install_failed : Bool
  pub vault_runs : Bool
  pub export_age : Option ℕ  -- in seconds; none: never
  pub hosts : Option (List Status)  -- none: the state file could not be read
  pub tasks : Option (List (Bool × Bool))  -- enabled, failing
  pub joined : Bool
  pub connected : ℕ
  pub found : ℕ

abbrev line : String → State → Check
line name state = record { name = name; state = state }

unfoldable pub memory_check : Facts → List Check
unfolding pct_state
memory_check f =
    if ltb 0 f.mem_total
    then line "Memory" (pct_state (f.mem_used * 100 % 2 ^ 64 / f.mem_total) 90 0) ∷ []
    else []

unfoldable pub load_check : Facts → List Check
load_check f =
    if ltb 0 f.cores then line "Load" (if f.over_load then warn else healthy) ∷ [] else []

-- The band of the warning begins ten below the limit; there is none at a limit up to ten.
unfoldable pub disk_check : Facts → List Check
unfolding pct_state
disk_check f =
    if ltb 0 f.disk_size
    then line "State disk" (
        pct_state ((f.disk_size + 2 ^ 64 - f.disk_free) % 2 ^ 64 * 100 % 2 ^ 64 / f.disk_size)
          f.disk_limit (f.disk_limit - 10))
      ∷ []
    else []

unfoldable pub agent_state : Facts → State
agent_state f = if f.agent_ready then healthy else if f.install_failed then bad else warn

unfoldable pub vault_state : Facts → State
vault_state f = if f.vault_runs then healthy else if not f.agent_ready then warn else bad

-- `backupCheck`.
unfoldable pub export_state : Option ℕ → State
export_state none = warn
export_state (some age) = if ltb (30 * 86_400) age then warn else healthy

abbrev is_online : Status → Bool
is_online online = true
is_online _ = false

abbrev is_mismatch : Status → Bool
is_mismatch mismatch = true
is_mismatch _ = false

abbrev pub count {ℓ} : {A : Type ℓ} → (A → Bool) → List A → ℕ
count p [] = 0
count p (x ∷ xs) = let rest = count p xs in if p x then suc rest else rest

unfoldable pub hosts_state : Option (List Status) → State
hosts_state none = bad
hosts_state (some hs) =
    if length hs == 0
    then off
    else if ltb 0 (count is_mismatch hs)
    then bad
    else if ltb (count is_online hs) (length hs)
    then warn
    else healthy

unfoldable pub tasks_state : Option (List (Bool × Bool)) → State
tasks_state none = bad
tasks_state (some ts) =
    if count (λ (t : Bool × Bool). t.0) ts == 0
    then off
    else if ltb 0 (count (λ (t : Bool × Bool). t.0 && t.1) ts)
    then warn
    else healthy

unfoldable pub space_state : Facts → State
space_state f =
    if not f.joined
    then off
    else if ltb 0 f.connected
    then healthy
    else if ltb 0 f.found
    then warn
    else healthy

unfoldable pub checks : Facts → List Check
unfolding memory_check load_check disk_check agent_state vault_state export_state hosts_state
    tasks_state space_state
checks f =
    memory_check f
    ++ load_check f
    ++ disk_check f
    ++ (line "Agent" (agent_state f)
        ∷ line "Credential vault" (vault_state f)
        ∷ line "Export" (export_state f.export_age)
        ∷ line "Hosts" (hosts_state f.hosts)
        ∷ line "Tasks" (tasks_state f.tasks)
        ∷ line "Space" (space_state f)
        ∷ [])

abbrev pub is_bad : State → Bool
is_bad bad = true
is_bad _ = false

abbrev pub is_warn : State → Bool
is_warn warn = true
is_warn _ = false

unfoldable pub raised : State → State → State
raised state c = if is_bad c || (is_warn c && not (is_bad state)) then c else state

-- The last loop of `healthReport`.
unfoldable pub worst_from : State → List Check → State
unfolding raised
worst_from state [] = state
worst_from state (c ∷ cs) = worst_from (raised state c.state) cs

unfoldable pub report_state : Facts → State
unfolding worst_from checks
report_state f = worst_from healthy (checks f)
