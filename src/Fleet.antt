-- ===== src/Fleet.antt =====
-- hub/internal/fleet/fleet.go and the codes of hub/internal/store/hosts.go: how a machine is enrolled, and
-- what a heartbeat makes of it. What SSH says of a key, and what a machine's facts script gives, are
-- arguments; JSON is read already; times are numbers.
pub mod Once
pub mod Sweep
pub mod Address
pub mod Mobile
pub mod Examples
use Prim.Native.String
use homedash.Prelude.{
  ℕ, zero, suc, ◌+◌, ◌-◌, ◌*◌, String, Bool, true, false, not, ◌&&◌, ◌||◌, Option, none, some, List,
  [], ◌∷◌, ◌++◌, ltb, leb, ◌==◌, str_eq, if◌then◌else◌, any, map,
}
use homedash.Prelude.Text.{trim_space, atoi, has_prefix}
use homedash.Prelude.Int.{ℤ, pos, negsuc}
use homedash.Hosts.{Status, unknown, online, offline, mismatch}
use homedash.Settings.{Settings}

pub record EnrollCode : Type 0 where
  pub code : String
  pub name : String
  pub is_mobile : Bool
  pub rebuild_from : ℕ  -- 0: no machine
  pub expires : ℕ
  pub used : Bool

-- A machine as enrollment records it.
pub record Enrolled : Type 0 where
  pub id : ℕ
  pub name : String
  pub addr : String
  pub port : ℕ
  pub host_key : String
  pub facts : String
  pub rebuild_script : String

pub record Registry : Type 0 where
  pub codes : List EnrollCode
  pub hosts : List Enrolled
  pub notes : List (String × String)

-- Fifteen minutes, in seconds.
abbrev pub code_life : ℕ
code_life = 900

abbrev pub has_code : String → List EnrollCode → Bool
has_code code = any (λ c. str_eq c.code code)

-- `NewEnrollCode`: none where the code is in the table.
unfoldable pub new_code :
    ℕ → String → String → Bool → ℕ → List EnrollCode → Option (List EnrollCode)
new_code now code name is_mobile rebuild_from codes =
    if has_code code codes
    then none
    else some (
        codes
        ++ record {
          code = code;
          name = name;
          is_mobile = is_mobile;
          rebuild_from = rebuild_from;
          expires = now + code_life;
          used = false;
        }
          ∷ [])

abbrev pub is_live : ℕ → String → EnrollCode → Bool
is_live now code c = str_eq c.code code && (not c.used && ltb now c.expires)

-- `EnrollCode`.
unfoldable pub live_code : ℕ → String → List EnrollCode → Option EnrollCode
live_code now code [] = none
live_code now code (c ∷ cs) = if is_live now code c then some c else live_code now code cs

-- `UseEnrollCode`; a code has one row.
unfoldable pub use_code : ℕ → String → List EnrollCode → Bool × List EnrollCode
use_code now code [] = (false, [])
use_code now code (c ∷ cs) =
    let rest = use_code now code cs in
    if is_live now code c then (true, record c { used = true } ∷ cs) else (rest.0, c ∷ rest.1)

unfoldable pub next_host : List Enrolled → ℕ
next_host [] = 1
next_host (h ∷ hs) = let n = next_host hs in if ltb h.id n then n else suc h.id

-- `AddHost`: none where the name is taken.
unfoldable pub add_host : Enrolled → List Enrolled → Option (List Enrolled)
add_host h hosts =
    if any (λ x. str_eq x.name h.name) hosts
    then none
    else some (hosts ++ record h { id = next_host hosts } ∷ [])

unfoldable pub script_of : ℕ → List Enrolled → String
script_of id [] = ""
script_of id (h ∷ hs) = if h.id == id then h.rebuild_script else script_of id hs

-- What the script posts; none for `facts` that are no JSON.
pub record Report : Type 0 where
  pub port : ℕ
  pub host_key : String
  pub facts : Option String

abbrev pub facts_or : Option String → String
facts_or none = "{}"
facts_or (some facts) = facts

abbrev pub default_port : ℕ → ℕ
default_port zero = 22
default_port (suc n) = suc n

abbrev pub machine_of : EnrollCode → String → Report → List Enrolled → Enrolled
machine_of c ip r hosts = record {
  id = 0;
  name = c.name;
  addr = ip;
  port = default_port r.port;
  host_key = trim_space r.host_key;
  facts = facts_or r.facts;
  rebuild_script = if c.rebuild_from == 0 then "" else script_of c.rebuild_from hosts;
}

abbrev pub enrolled : String → Registry → Option (List Enrolled) → Bool × Registry
enrolled name s none = (false, s)
enrolled name s (some hosts) =
    (true, record s { hosts = hosts; notes = s.notes ++ ("host.enrolled", name) ∷ [] })

-- The code is spent before the machine is added.
unfoldable pub spend : ℕ → String → EnrollCode → Report → Registry → Bool × Registry
spend now ip c r s =
    let spent = use_code now c.code s.codes in
    if spent.0
    then enrolled c.name (record s { codes = spent.1 })
        (add_host (machine_of c ip r s.hosts) s.hosts)
    else (false, record s { codes = spent.1 })

abbrev pub report_code :
    (String → Bool) → ℕ → String → Option Report → Option EnrollCode → Registry → Bool × Registry
report_code key_parses now ip body none s = (false, s)
report_code key_parses now ip none (some c) s = (false, s)
report_code key_parses now ip (some r) (some c) s =
    if c.is_mobile || not (key_parses r.host_key) then (false, s) else spend now ip c r s

-- `Report`, up to the work that follows over SSH: whether there was no error.
unfoldable pub report :
    (String → Bool) → ℕ → String → String → Option Report → Registry → Bool × Registry
report key_parses now code ip body s =
    report_code key_parses now ip body (live_code now code s.codes) s
