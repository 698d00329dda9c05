-- ===== src/Space/Services.antt =====
-- hub/internal/peers/services.go: `handleTCP`, a peer's connection to a service that this hub
-- publishes, up to the copy of the bytes. What the handler reads is an argument. The counters are the
-- connections of all peers and of each.
pub mod Share
pub mod Limits
use Prim.Native.String
use homedash.Prelude.{
  ℕ, String, Bool, true, false, not, ◌||◌, ◌&&◌, Option, none, some, List, [], ◌∷◌, str_eq,
  if◌then◌else◌, any,
}
use homedash.Prelude.Int.{ℤ, pos, negsuc, leb_ℤ, ltb_ℤ, succ_ℤ, pred_ℤ}
use homedash.Hosts.{decimal}
use homedash.Settings.{Settings, setting_nat}
use homedash.Space.{Verdict, reset, refused, accepted, contains, change}
use homedash.Space.Tables.{Peer}
use homedash.Space.Sending.{is_approved}

-- A published service: `host` is its machine's name.
pub record Published : Type 0 where
  pub host : String
  pub port : ℕ
  pub peers : List String

-- `service`: none where the header cannot be read, or names no service. `host_online`: the machine is
-- there, and online. `answers`: its port does.
pub record Wanted : Type 0 where
  pub settings : Settings
  pub known : Bool
  pub readable : Bool
  pub peer : Option Peer
  pub service : Option Published
  pub host_online : Bool
  pub answers : Bool

-- `conns`, and `perPeer`, which is nil outside a space.
pub record Conns : Type 0 where
  pub total : ℤ
  pub per_peer : Option (String → ℤ)

abbrev pub ceiling : Settings → ℕ
ceiling settings = setting_nat settings "space.connections" 64

abbrev pub share : Settings → ℕ
share settings = setting_nat settings "space.peer_connections" 16

abbrev pub over_share : Settings → String → Option (String → ℤ) → Bool
over_share settings peer none = true
over_share settings peer (some counts) = leb_ℤ (pos (share settings)) (counts peer)

abbrev pub counted : (ℤ → ℤ) → String → Option (String → ℤ) → Option (String → ℤ)
counted f peer none = none
counted f peer (some counts) = some (change f peer counts)

abbrev pub with_number : String → ℕ → String
with_number text n = String.◌++◌ text (String.◌++◌ " (" (String.◌++◌ (decimal n) ")"))

-- The deferred decrements of a connection that was counted.
unfoldable pub end_conn : String → Conns → Conns
end_conn peer c = record { total = pred_ℤ c.total; per_peer = counted pred_ℤ peer c.per_peer }

unfoldable pub dial : Wanted → Published → String → Conns → Verdict × Conns
dial q sv peer c = if q.answers then (accepted, c) else (
  refused (String.◌++◌ sv.host (String.◌++◌ ":" (String.◌++◌ (decimal sv.port) " did not answer"))),
  end_conn peer c,
)

-- The share is taken, or the place under the ceiling given back.
unfoldable pub take_share : Wanted → Published → String → Conns → Verdict × Conns
take_share q sv peer c =
    if over_share q.settings peer c.per_peer
    then (
      refused (with_number "over your connection share" (share q.settings)),
      record c { total = pred_ℤ c.total },
    )
    else dial q sv peer (record c { per_peer = counted succ_ℤ peer c.per_peer })

unfoldable pub take_place : Wanted → Published → String → Conns → Verdict × Conns
take_place q sv peer c =
    let more = record c { total = succ_ℤ c.total } in
    if ltb_ℤ (pos (ceiling q.settings)) more.total
    then (
      refused (with_number "over the connection ceiling" (ceiling q.settings)),
      record more { total = pred_ℤ more.total },
    )
    else take_share q sv peer more

abbrev pub to_host : Wanted → Published → String → Conns → Verdict × Conns
to_host q sv peer c =
    if q.host_online
    then take_place q sv peer c
    else (refused (String.◌++◌ sv.host " is not online"), c)

abbrev pub to_service : Wanted → String → Option Published → Conns → Verdict × Conns
to_service q peer none c = (refused "not published to you", c)
to_service q peer (some sv) c =
    if contains sv.peers peer then to_host q sv peer c else (refused "not published to you", c)

-- `handleTCP` up to the yes: accepted is a connection at work.
unfoldable pub admit_conn : Wanted → String → Conns → Verdict × Conns
admit_conn q peer c =
    if not q.known || not q.readable
    then (reset, c)
    else if not (is_approved q.peer)
    then (refused "not approved", c)
    else to_service q peer q.service c
