-- ===== src/Devices/Scans.antt =====
-- ScanHost and Merge of hub/internal/fleet/network.go: what a machine's scan makes of the tables. What
-- the script printed is read already; the guess made of a device's sightings is an argument.
use homedash.Prelude.{
  ℕ, String, Bool, true, false, not, ◌&&◌, ◌||◌, Option, none, some, List, [], ◌∷◌, ◌++◌, ltb, ◌==◌,
  str_eq, if◌then◌else◌, any, keep, map,
}
use homedash.Prelude.Text.{trim_space, is_empty}
use homedash.Sort.{insertion_sort}
use homedash.Devices.{Device, Sighting, Tables, Seen, sight_all, set_guess, forget_addrs}

pub record LanItem : Type 0 where
  pub mac : String
  pub ip : String
  pub detail : String

pub record Item : Type 0 where
  pub addr : String
  pub detail : String

-- none: the machine has no interface or tool for it.
pub record Scan : Type 0 where
  pub lan : Option (List LanItem)
  pub wifi : Option (List Item)
  pub bt : Option (List Item)

pub record Guess : Type 0 where
  pub name : String
  pub kind : String
  pub vendor : String

abbrev pub items {ℓ} : {A : Type ℓ} → Option (List A) → List A
items none = []
items (some xs) = xs

unfoldable pub is_own : List String → String → Bool
is_own own addr = any (λ m. str_eq m addr) own

-- The closure `sight`: an address that is empty or the hub's own is passed over.
unfoldable pub add_seen : List String → String → String → String → List Seen → List Seen
add_seen own kind addr detail rest =
    if is_empty addr || is_own own addr
    then rest
    else record { kind = kind; addr = addr; detail = detail } ∷ rest

module _ (lower : String → String) (own : List String) where
  unfoldable pub lan_seen : String → List LanItem → List Seen
  unfolding add_seen
  lan_seen hub_addr [] = []
  lan_seen hub_addr (d ∷ ds) =
      let rest = lan_seen hub_addr ds in
      if not (is_empty hub_addr) && str_eq d.ip hub_addr
      then rest
      else add_seen own "lan" (lower d.mac) d.detail rest

  unfoldable pub items_seen : String → List Item → List Seen
  unfolding add_seen
  items_seen kind [] = []
  items_seen kind (d ∷ ds) = add_seen own kind (lower d.addr) d.detail (items_seen kind ds)

  -- Everything that a scan saw.
  unfoldable pub found_by : String → Scan → List Seen
  unfolding lan_seen items_seen
  found_by hub_addr sc =
      lan_seen hub_addr (items sc.lan)
      ++ items_seen "wifi" (items sc.wifi)
      ++ items_seen "bt" (items sc.bt)

-- The sightings of a device, newest first.
unfoldable pub sightings_of : ℕ → List Sighting → List Sighting
unfolding insertion_sort
sightings_of id ss = insertion_sort (λ a b. ltb b.seen a.seen) (keep (λ s. s.device == id) ss)

unfoldable pub find_device : ℕ → List Device → Option Device
find_device id [] = none
find_device id (d ∷ ds) = let rest = find_device id ds in if d.id == id then some d else rest

unfoldable pub guess_device :
    (Device → List Sighting → Guess) → Tables → Option Device → Tables → Tables
unfolding set_guess sightings_of
guess_device identify before none tb = tb
guess_device identify before (some d) tb =
    let g = identify d (sightings_of d.id before.sightings) in
    if str_eq g.name d.guess_name && str_eq g.kind d.guess_kind && str_eq g.vendor d.vendor
    then tb
    else set_guess d.id g.name g.kind g.vendor tb

-- The last loop of Merge: the devices are read once, before it.
unfoldable pub guess_each : (Device → List Sighting → Guess) → Tables → List ℕ → Tables → Tables
unfolding guess_device find_device
guess_each identify before [] tb = tb
guess_each identify before (id ∷ ids) tb =
    guess_each identify before ids (guess_device identify before (find_device id before.devices) tb)

-- The events `device.new`: kind and address.
unfoldable pub new_events : List Seen → List Bool → List (String × String)
new_events (s ∷ seen) (true ∷ created) = (s.kind, s.addr) ∷ new_events seen created
new_events (s ∷ seen) (false ∷ created) = new_events seen created
new_events seen created = []

-- Which of Merge's calls of the store succeed: on a context that has ended none does.
pub record Store : Type 0 where
  pub lists_hosts : Bool
  pub forgets : Bool
  pub sights : Bool
  pub lists_devices : Bool

unfoldable pub merged :
    (Device → List Sighting → Guess)
    → Bool
    → List Seen
    → Tables
    → Option (Tables × List ℕ × List Bool)
    → Tables × List (String × String) × Bool
unfolding guess_each new_events
merged identify relists found forgotten none = (forgotten, [], false)
merged identify relists found forgotten (some (tb, ids, created)) =
    (if relists then guess_each identify tb ids tb else tb, new_events found created, relists)

-- `Merge`: the tables, the events, and whether there was no error. `macs` are the interfaces that the
-- hosts' facts and the hub itself report.
unfoldable pub merge :
    (String → String)
    → (String → String)
    → (Device → List Sighting → Guess)
    → Store
    → List String
    → String
    → ℕ
    → ℕ
    → Scan
    → Tables
    → Tables × List (String × String) × Bool
unfolding merged found_by forget_addrs sight_all
merge lower sql_lower identify st macs hub_addr now host sc tb =
    if not (st.lists_hosts && st.forgets)
    then (tb, [], false)
    else let own = map lower macs in
      let found = found_by lower own (trim_space hub_addr) sc in
      let forgotten = forget_addrs lower sql_lower own tb in
      merged identify st.lists_devices found forgotten
        (if st.sights then sight_all lower now host found forgotten else none)

-- The row of `host_scans`.
pub record HostScan : Type 0 where
  pub host : ℕ
  pub at : ℕ
  pub lan : Bool
  pub wifi : Bool
  pub bt : Bool
  pub error : String

-- `SetHostScan`.
unfoldable pub put_scan : HostScan → List HostScan → List HostScan
put_scan new [] = new ∷ []
put_scan new (s ∷ ss) =
    let rest = put_scan new ss in if s.host == new.host then new ∷ ss else s ∷ rest

-- What came back of scan.sh: an error, a failed script with the tail of its output, or its answer.
pub data Answer : Type 0 where
  no_answer : String → Answer
  failed_script : String → Answer
  unreadable : String → Answer
  scanned : Scan → Answer

abbrev is_there {ℓ} : {A : Type ℓ} → Option A → Bool
is_there none = false
is_there (some x) = true

failed_scan : ℕ → ℕ → String → HostScan
failed_scan now host error = record {
  host = host;
  at = now;
  lan = false;
  wifi = false;
  bt = false;
  error = error;
}

unfoldable pub row_of : ℕ → ℕ → Answer → HostScan
unfolding failed_scan
row_of now host (no_answer e) = failed_scan now host e
row_of now host (failed_script e) = failed_scan now host e
row_of now host (unreadable e) = failed_scan now host e
row_of now host (scanned sc) = record {
  host = host;
  at = now;
  lan = is_there sc.lan;
  wifi = is_there sc.wifi;
  bt = is_there sc.bt;
  error = "";
}

merge_answer :
    (String → String)
    → (String → String)
    → (Device → List Sighting → Guess)
    → Store
    → List String
    → String
    → ℕ
    → ℕ
    → Answer
    → Tables
    → Tables
unfolding merge
merge_answer lower sql_lower identify st macs hub_addr now host (no_answer e) tb = tb
merge_answer lower sql_lower identify st macs hub_addr now host (failed_script e) tb = tb
merge_answer lower sql_lower identify st macs hub_addr now host (unreadable e) tb = tb
merge_answer lower sql_lower identify st macs hub_addr now host (scanned sc) tb =
    (merge lower sql_lower identify st macs hub_addr now host sc tb).0

-- `ScanHost`: the tables and the rows of the scans. A failed merge is logged, no more.
unfoldable pub scan_host :
    (String → String)
    → (String → String)
    → (Device → List Sighting → Guess)
    → Store
    → List String
    → String
    → ℕ
    → ℕ
    → Answer
    → Tables
    → List HostScan
    → Tables × List HostScan
unfolding merge_answer put_scan row_of
scan_host lower sql_lower identify st macs hub_addr now host ans tb scans = (
  merge_answer lower sql_lower identify st macs hub_addr now host ans tb,
  put_scan (row_of now host ans) scans,
)
