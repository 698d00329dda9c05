-- ===== src/Devices.antt =====
-- hub/internal/store/devices.go, and ScanHost and Merge of hub/internal/fleet/network.go: the devices
-- that the machines' scans see. Lower case is an argument (`lower` is Go's, `sql_lower` SQLite's), as
-- are the guess made of a device's sightings and what the machines report of their interfaces; times
-- are numbers.
pub mod Keys
pub mod Upheld
pub mod Rows
pub mod Acts
pub mod Sight
pub mod Words
pub mod Own
pub mod Scans
pub mod Examples
use homedash.Prelude.{
  ℕ, zero, suc, ◌+◌, ◌-◌, ◌*◌, String, Bool, true, false, not, ◌&&◌, ◌||◌, Option, none, some, List,
  [], ◌∷◌, ◌++◌, ltb, ◌==◌, str_eq, if◌then◌else◌, any, keep, map, ◌≡◌, refl,
}
use homedash.Prelude.Text.{trim_space, is_empty}

pub record Device : Type 0 where
  pub id : ℕ
  pub kind : String
  pub addr : String
  pub guess_name : String
  pub guess_kind : String
  pub vendor : String
  pub name : String
  pub user_kind : String
  pub first_seen : ℕ
  pub last_seen : ℕ

pub record Sighting : Type 0 where
  pub device : ℕ
  pub host : ℕ
  pub seen : ℕ
  pub detail : String

-- The two tables, and the ids of the hosts, which a sighting refers to.
pub record Tables : Type 0 where
  pub devices : List Device
  pub sightings : List Sighting
  pub hosts : List ℕ

-- What Merge hands SightAll.
pub record Seen : Type 0 where
  pub kind : String
  pub addr : String
  pub detail : String

unfoldable pub is_device : String → String → Device → Bool
is_device kind addr d = str_eq d.kind kind && str_eq d.addr addr

unfoldable pub find_id : String → String → List Device → Option ℕ
unfolding is_device
find_id kind addr [] = none
find_id kind addr (d ∷ ds) =
    let rest = find_id kind addr ds in if is_device kind addr d then some d.id else rest

-- The id that SQLite gives a new row: one more than the largest.
unfoldable pub next_id : List Device → ℕ
next_id [] = 1
next_id (d ∷ ds) = let rest = next_id ds in if ltb d.id rest then rest else suc d.id

unfoldable pub new_device : ℕ → ℕ → String → String → Device
new_device now id kind addr = record {
  id = id;
  kind = kind;
  addr = addr;
  guess_name = "";
  guess_kind = "";
  vendor = "";
  name = "";
  user_kind = "";
  first_seen = now;
  last_seen = now;
}

abbrev pub is_kind : String → Bool
is_kind kind = str_eq kind "lan" || str_eq kind "wifi" || str_eq kind "bt"

-- The update of the rows with an id.
unfoldable pub update_device : (Device → Device) → ℕ → List Device → List Device
update_device f id [] = []
update_device f id (d ∷ ds) =
    let rest = update_device f id ds in if d.id == id then f d ∷ rest else d ∷ rest

unfoldable pub is_sighting : ℕ → ℕ → Sighting → Bool
is_sighting id host s = s.device == id && s.host == host

unfoldable pub put_sighting : Sighting → List Sighting → List Sighting
unfolding is_sighting
put_sighting new [] = new ∷ []
put_sighting new (s ∷ ss) =
    let rest = put_sighting new ss in
    if is_sighting new.device new.host s then new ∷ ss else s ∷ rest

-- The row of the device, touched or added: none where the kind is not one of the table's.
unfoldable pub found_or_added :
    ℕ → String → String → List Device → Option ℕ → Option (List Device × ℕ × Bool)
unfolding update_device new_device next_id
found_or_added now kind addr ds (some id) =
    some (update_device (λ d. record d { last_seen = now }) id ds, id, false)
found_or_added now kind addr ds none =
    if is_kind kind
    then some (ds ++ new_device now (next_id ds) kind addr ∷ [], next_id ds, true)
    else none

-- `detail` is `{}` where there is none; a sighting by no host of the hub is refused.
unfoldable pub sighted :
    ℕ → ℕ → String → Tables → Option (List Device × ℕ × Bool) → Option (Tables × ℕ × Bool)
unfolding put_sighting
sighted now host detail tb none = none
sighted now host detail tb (some (ds, id, is_new)) =
    if any (λ h. h == host) tb.hosts
    then some (
      record tb {
        devices = ds;
        sightings =
            put_sighting
              (record {
                device = id;
                host = host;
                seen = now;
                detail = if is_empty detail then "{}" else detail;
              })
              tb.sightings;
      },
      id,
      is_new,
    )
    else none

-- One round of the loop of `SightAll`.
unfoldable pub sight_one : (String → String) → ℕ → ℕ → Seen → Tables → Option (Tables × ℕ × Bool)
unfolding found_or_added sighted find_id
sight_one lower now host s tb =
    sighted now host s.detail tb (
      found_or_added now s.kind (lower s.addr) tb.devices
        (find_id s.kind (lower s.addr) tb.devices))

and_so_on : Option (Tables × List ℕ × List Bool) → ℕ → Bool → Option (Tables × List ℕ × List Bool)
and_so_on none id is_new = none
and_so_on (some (tb, ids, created)) id is_new = some (tb, id ∷ ids, is_new ∷ created)

-- The loop, which an error ends; the transaction is then rolled back.
sight_each :
    (String → String)
    → ℕ
    → ℕ
    → List Seen
    → Option (Tables × ℕ × Bool)
    → Option (Tables × List ℕ × List Bool)
unfolding sight_one and_so_on
sight_each lower now host seen none = none
sight_each lower now host [] (some (tb, id, is_new)) = some (tb, id ∷ [], is_new ∷ [])
sight_each lower now host (s ∷ seen) (some (tb, id, is_new)) =
    and_so_on (sight_each lower now host seen (sight_one lower now host s tb)) id is_new

-- `SightAll`: the tables, the ids in order, and which were new; none leaves the tables.
unfoldable pub sight_all :
    (String → String) → ℕ → ℕ → List Seen → Tables → Option (Tables × List ℕ × List Bool)
unfolding sight_each sight_one
sight_all lower now host [] tb = some (tb, [], [])
sight_all lower now host (s ∷ seen) tb =
    sight_each lower now host seen (sight_one lower now host s tb)

-- `SetGuess` and `NameDevice`.
unfoldable pub set_guess : ℕ → String → String → String → Tables → Tables
unfolding update_device
set_guess id name kind vendor tb = record tb {
  devices =
      update_device (λ d. record d { guess_name = name; guess_kind = kind; vendor = vendor }) id
        tb.devices;
}

unfoldable pub name_device : ℕ → String → String → Tables → Tables
unfolding update_device
name_device id name kind tb = record tb {
  devices =
      update_device (λ d. record d { name = trim_space name; user_kind = trim_space kind }) id
        tb.devices;
}

unfoldable pub has_device : ℕ → List Device → Bool
has_device id = any (λ d. d.id == id)

-- A deletion of devices, with the sightings that refer to them.
unfoldable pub delete_devices : (Device → Bool) → Tables → Tables
unfolding has_device
delete_devices test tb = record tb {
  devices = keep (λ d. not (test d)) tb.devices;
  sightings = keep (λ s. not (has_device s.device (keep test tb.devices))) tb.sightings;
}

-- `ForgetDevice`, `ForgetAddrs` and `ForgetStale`.
unfoldable pub forget_device : ℕ → Tables → Tables
unfolding delete_devices
forget_device id = delete_devices (λ d. d.id == id)

unfoldable pub forget_addrs : (String → String) → (String → String) → List String → Tables → Tables
unfolding delete_devices
forget_addrs lower sql_lower [] tb = tb
forget_addrs lower sql_lower (a ∷ addrs) tb =
    delete_devices (λ d. any (λ x. str_eq (sql_lower d.addr) (lower x)) (a ∷ addrs)) tb

-- Times are seconds.
unfoldable pub forget_stale : ℕ → ℕ → Tables → Tables
unfolding delete_devices
forget_stale now days =
    delete_devices (λ d. is_empty d.name && ltb (d.last_seen + days * 86_400) now)

-- What the statements on `hosts` mean here: a deletion takes a host's sightings with it.
abbrev pub add_host : ℕ → Tables → Tables
add_host id tb = record tb { hosts = id ∷ tb.hosts }

abbrev pub drop_host : ℕ → Tables → Tables
drop_host id tb = record tb {
  hosts = keep (λ h. not (h == id)) tb.hosts;
  sightings = keep (λ s. not (s.host == id)) tb.sightings;
}
