-- ===== src/Space/Tables.antt =====
-- hub/internal/store/peers.go: the tables of the peers, of the services that this hub publishes, of the
-- fronts, and of the jobs between hubs. Rows are in the order of their insertion; times are numbers of
-- milliseconds; when a peer was first and last seen, and the count of bytes, are left out.
pub mod Approval
pub mod Fronts
pub mod Lists
use Prim.Native.String
use homedash.Prelude.{
  ℕ, zero, suc, ◌+◌, String, Bool, true, false, not, ◌&&◌, ◌||◌, Option, none, some, List, [], ◌∷◌,
  ◌++◌, ltb, leb, ◌==◌, str_eq, if◌then◌else◌, any, keep, map, length,
}
use homedash.Prelude.Int.{ℤ, pos}
use homedash.Prelude.Text.{trim_space}

pub record Peer : Type 0 where
  pub id : String
  pub name : String
  pub approved : Bool
  pub max_concurrent : ℤ
  pub per_hour : ℤ

pub record Front : Type 0 where
  pub peer_id : String
  pub service : String
  pub approved : Bool
  pub hostname : String

-- `peers` as it is stored.
pub record Service : Type 0 where
  pub name : String
  pub host_id : ℕ
  pub port : ℕ
  pub peers : String

pub record PeerJob : Type 0 where
  pub id : ℕ
  pub peer_id : String
  pub served : Bool  -- or sent
  pub model : String
  pub at : ℕ
  pub accepted : Bool
  pub finished : Bool
  pub ttft : Option ℕ
  pub reason : String

pub record Tables : Type 0 where
  pub peers : List Peer
  pub fronts : List Front
  pub services : List Service
  pub jobs : List PeerJob

abbrev pub renamed : String → Peer → Peer
renamed name p = if str_eq name "" then p else record p { name = name }

-- `SeenPeer`: a row for a new id; of a row that is there, the name alone, if there is one.
unfoldable pub seen_peer : Peer → List Peer → List Peer
seen_peer new [] = new ∷ []
seen_peer new (p ∷ ps) =
    let rest = seen_peer new ps in if str_eq p.id new.id then renamed new.name p ∷ ps else p ∷ rest

-- `Peer`.
unfoldable pub find_peer : String → List Peer → Option Peer
find_peer id [] = none
find_peer id (p ∷ ps) = if str_eq p.id id then some p else find_peer id ps

-- `SetPeer`.
unfoldable pub set_peer : String → Bool → ℤ → ℤ → List Peer → List Peer
set_peer id approved max_concurrent per_hour = map (λ p.
    if str_eq p.id id
    then record p { approved = approved; max_concurrent = max_concurrent; per_hour = per_hour }
    else p)

-- `ForgetPeer`.
unfoldable pub forget_peer : String → Tables → Tables
forget_peer id s = record s {
  fronts = keep (λ f. not (str_eq f.peer_id id)) s.fronts;
  peers = keep (λ p. not (str_eq p.id id)) s.peers;
}

unfoldable pub is_front : String → String → Front → Bool
is_front peer service f = str_eq f.peer_id peer && str_eq f.service service

-- `SeenFront`: INSERT OR IGNORE.
unfoldable pub seen_front : String → String → List Front → List Front
seen_front peer service [] =
    record { peer_id = peer; service = service; approved = false; hostname = "" } ∷ []
seen_front peer service (f ∷ fs) =
    let rest = seen_front peer service fs in if is_front peer service f then f ∷ fs else f ∷ rest

-- `SetFront`: an upsert.
unfoldable pub set_front : Front → List Front → List Front
set_front new [] = new ∷ []
set_front new (f ∷ fs) =
    let rest = set_front new fs in if is_front new.peer_id new.service f then new ∷ fs else f ∷ rest

-- `Front`.
unfoldable pub find_front : String → String → List Front → Option Front
find_front peer service [] = none
find_front peer service (f ∷ fs) =
    if is_front peer service f then some f else find_front peer service fs

-- `FrontByHostname`.
unfoldable pub front_by_hostname : String → List Front → Option Front
front_by_hostname hostname [] = none
front_by_hostname hostname (f ∷ fs) =
    if str_eq f.hostname hostname && f.approved then some f else front_by_hostname hostname fs

-- `Fronts`, but for its order.
unfoldable pub fronts_of : String → List Front → List Front
fronts_of peer fs = if str_eq peer "" then fs else keep (λ f. str_eq f.peer_id peer) fs

-- `RecordPeerJob`: the id of the row, the rows. The newest row is the first.
unfoldable pub record_job :
    ℕ → String → Bool → String → Bool → String → List PeerJob → ℕ × List PeerJob
record_job now peer served model accepted reason jobs = (
  suc (length jobs),
  record {
    id = suc (length jobs);
    peer_id = peer;
    served = served;
    model = model;
    at = now;
    accepted = accepted;
    finished = false;
    ttft = none;
    reason = reason;
  }
      ∷ jobs,
)

abbrev pub kept_ttft : ℕ → Option ℕ → Option ℕ
kept_ttft zero old = old
kept_ttft (suc n) old = some (suc n)

-- `FinishPeerJob`; a time of 0 is none.
unfoldable pub finish_job : ℕ → Bool → ℕ → List PeerJob → List PeerJob
finish_job id finished ttft =
    map (λ j.
      if j.id == id then record j { finished = finished; ttft = kept_ttft ttft j.ttft } else j)

-- An hour has 3,600,000 milliseconds.
abbrev pub counts_at : ℕ → PeerJob → Bool
counts_at now j = j.served && (j.accepted && ltb now (j.at + 3600000))

-- `ServedInLastHour` and `ServedInLastHourAll`.
unfoldable pub served_in_last_hour : ℕ → String → List PeerJob → ℕ
served_in_last_hour now peer jobs =
    length (keep (λ j. str_eq j.peer_id peer && counts_at now j) jobs)

unfoldable pub served_in_last_hour_all : ℕ → List PeerJob → ℕ
served_in_last_hour_all now jobs = length (keep (counts_at now) jobs)

-- `joinList`'s loop: trimmed, without the empty ones and without repeats.
unfoldable pub list_items : List String → List String → List String
list_items seen [] = []
list_items seen (x ∷ xs) =
    let item = trim_space x in
    let new = list_items (item ∷ seen) xs in
    let rest = list_items seen xs in
    if str_eq item "" || any (λ y. str_eq y item) seen then rest else item ∷ new
