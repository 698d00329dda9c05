-- ===== src/Space.antt =====
-- hub/internal/peers/peers.go: a hub among the hubs of its space. This file serves a peer's job:
-- `handleJob` up to the router, its counters, and `attach` and `leave`, which replace them. The two
-- settings that limit all peers, the peer's row and the counts of the last hour are read from the
-- store: what they hold at the time is an argument.
pub mod Admission
pub mod Counting
pub mod Tables
pub mod Sending
pub mod Services
pub mod Examples
use homedash.Prelude.{
  ℕ, String, Bool, true, false, not, ◌||◌, ◌&&◌, Option, none, some, List, [], ◌∷◌, ltb, leb,
  str_eq, if◌then◌else◌, any,
}
use homedash.Prelude.Int.{ℤ, pos, negsuc, leb_ℤ, ltb_ℤ, succ_ℤ, pred_ℤ}
use homedash.Settings.{Settings, setting_nat, setting_bool}
use homedash.Pool.Place.{job_path}
use homedash.Pool.Pick.{with_latest}

pub record JobHeader : Type 0 where
  pub model : String
  pub path : String
  pub size : ℤ

pub record PeerRow : Type 0 where
  pub approved : Bool
  pub max_concurrent : ℤ
  pub per_hour : ℤ

-- What the handler reads: none for a header that cannot be read, and for a peer with no row.
pub record Asked : Type 0 where
  pub settings : Settings
  pub known : Bool
  pub header : Option JobHeader
  pub peer : Option PeerRow
  pub served : ℕ
  pub served_all : ℕ
  pub models : List String

-- `serving` is nil (none) outside a space; a key that is missing reads as 0.
pub record Counters : Type 0 where
  pub serving : Option (String → ℤ)
  pub total : ℤ

pub data Verdict : Type 0 where
  reset : Verdict
  refused : String → Verdict
  accepted : Verdict
  panics : Verdict

-- 64 << 20.
abbrev pub body_max : ℕ
body_max = 67108864

abbrev pub contains : List String → String → Bool
contains models model = any (λ m. str_eq m model || str_eq m (with_latest model)) models

abbrev pub approved_row : Option PeerRow → Option PeerRow
approved_row none = none
approved_row (some row) = if row.approved then some row else none

-- The refusals that look at no counter, in the order of the code.
unfoldable pub check_row : Asked → JobHeader → PeerRow → Option String
check_row q hdr row =
    if not (job_path hdr.path)
    then some "not a prompt"
    else if ltb_ℤ hdr.size (pos 0) || ltb_ℤ (pos body_max) hdr.size
    then some "request too large"
    else if leb_ℤ row.per_hour (pos q.served)
    then some "over the hourly allowance"
    else if leb (setting_nat q.settings "space.per_hour" 100) q.served_all
    then some "over the hub's hourly allowance"
    else none

abbrev pub count_of : String → Counters → ℤ
count_of peer c = elim c.serving [ none ↦ pos 0 | some counts ↦ counts peer ]

abbrev pub change : (ℤ → ℤ) → String → (String → ℤ) → String → ℤ
change f peer counts other = if str_eq peer other then f (counts other) else counts other

-- An assignment to a nil map panics.
unfoldable pub change_count : (ℤ → ℤ) → String → Counters → Option Counters
change_count f peer c = elim c.serving [
  | none ↦ none
  | some counts ↦ some (record { serving = some (change f peer counts); total = f c.total })
]

-- The deferred decrement: none is the panic.
unfoldable pub end_job : String → Counters → Option Counters
unfolding change_count
end_job peer c = change_count pred_ℤ peer c

abbrev pub is_full : Asked → PeerRow → String → Counters → Bool
is_full q row peer c =
    leb_ℤ row.max_concurrent (count_of peer c)
    || leb_ℤ (pos (setting_nat q.settings "space.ceiling" 2)) c.total

abbrev pub or_panic : Counters → Option Counters → Verdict × Counters
or_panic c none = (panics, c)
or_panic c (some c') = (accepted, c')

unfoldable pub count_in : Asked → PeerRow → String → Counters → Verdict × Counters
unfolding change_count
count_in q row peer c =
    if is_full q row peer c
    then (refused "over the concurrency limit", c)
    else or_panic c (change_count succ_ℤ peer c)

abbrev pub after_row : Asked → PeerRow → String → Option String → Counters → Verdict × Counters
after_row q row peer (some why) c = (refused why, c)
after_row q row peer none c = count_in q row peer c

abbrev pub admit_row : Asked → String → JobHeader → Option PeerRow → Counters → Verdict × Counters
admit_row q peer hdr none c = (refused "not approved", c)
admit_row q peer hdr (some row) c = after_row q row peer (check_row q hdr row) c

abbrev pub admit_header : Asked → String → Option JobHeader → Counters → Verdict × Counters
admit_header q peer none c = (reset, c)
admit_header q peer (some hdr) c =
    if not (setting_bool q.settings "space.serve")
    then (refused "this hub does not run peers' jobs", c)
    else admit_row q peer hdr (approved_row q.peer) c

-- From the stream to the counters: accepted is the job that was counted in.
unfoldable pub admit : Asked → String → Counters → Verdict × Counters
unfolding check_row count_in
admit q peer c = if not q.known then (reset, c) else admit_header q peer q.header c

-- Once it is counted: a model that no machine holds is refused still.
unfoldable pub reply_to : Asked → JobHeader → Verdict
reply_to q hdr =
    if contains q.models hdr.model then accepted else refused "nothing in the pool holds the model"

-- `attach` and `leave`, as far as the counters go: the total stays.
unfoldable pub attach : Counters → Counters
attach c = record c { serving = some (λ _. pos 0) }

unfoldable pub leave : Counters → Counters
leave c = record c { serving = none }
