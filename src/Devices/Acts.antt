-- ===== src/Devices/Acts.antt =====
-- hub/internal/store/devices.go: any sequence of statements on the devices. A scan that is merged is
-- several of them: `forget_own` with the addresses of the hub's own machines, `sight`, then a `guess`
-- for each device whose guess changes.
use homedash.Prelude.{
  ℕ, ◌+◌, ◌*◌, String, Bool, true, not, ◌&&◌, Option, none, some, List, [], ◌∷◌, ltb, ◌==◌, ==_iff,
  str_eq, any, keep, ◌≡◌, refl, arith,
}
use homedash.Prelude.Text.{trim_space, is_empty}
use homedash.Devices.{
  Sighting, Tables, Seen, find_id, found_or_added, sight_one, and_so_on, sight_each, sight_all,
  set_guess, name_device, has_device, forget_device, forget_addrs, forget_stale, add_host,
  drop_host,
}
use homedash.Devices.Keys.{by_hosts, IsValid, update_device-IsValid}
use homedash.Devices.Upheld.{pairs-keep, all-keep}
use homedash.Devices.Rows.{delete_devices-IsValid, row-IsFound, IsSighted, sighted-IsSighted}

pub data Act : Type 0 where
  sight : ℕ → ℕ → List Seen → Act
  guess : ℕ → String → String → String → Act
  name : ℕ → String → String → Act
  forget : ℕ → Act
  forget_own : List String → Act
  stale : ℕ → ℕ → Act
  host_added : ℕ → Act
  host_dropped : ℕ → Act

-- An error rolls the transaction back.
unfoldable pub commit : Tables → Option (Tables × List ℕ × List Bool) → Tables
commit tb none = tb
commit tb (some (later, ids, created)) = later

module _ (lower sql_lower : String → String) where
  unfoldable pub act : Tables → Act → Tables
  unfolding commit
  act tb (sight now host seen) = commit tb (sight_all lower now host seen tb)
  act tb (guess id n k v) = set_guess id n k v tb
  act tb (name id n k) = name_device id n k tb
  act tb (forget id) = forget_device id tb
  act tb (forget_own addrs) = forget_addrs lower sql_lower addrs tb
  act tb (stale now days) = forget_stale now days tb
  act tb (host_added id) = add_host id tb
  act tb (host_dropped id) = drop_host id tb

  unfoldable pub run : Tables → List Act → Tables
  run tb [] = tb
  run tb (a ∷ acts) = run (act tb a) acts

abbrev pub empty : Tables
empty = record { devices = []; sightings = []; hosts = [] }

abbrev IsCommitted : Option (Tables × List ℕ × List Bool) → Type 0
IsCommitted none = Unit
IsCommitted (some (tb, ids, created)) = IsValid tb

commit-IsValid :
    (tb : Tables) (o : Option (Tables × List ℕ × List Bool))
    → IsValid tb
    → IsCommitted o
    → IsValid (commit tb o)
unfolding commit
commit-IsValid tb none v c = v
commit-IsValid tb (some (later, ids, created)) v c = c

and_so_on-IsCommitted :
    (o : Option (Tables × List ℕ × List Bool)) (id : ℕ) (is_new : Bool)
    → IsCommitted o
    → IsCommitted (and_so_on o id is_new)
unfolding and_so_on
and_so_on-IsCommitted none id is_new c = tt
and_so_on-IsCommitted (some (tb, ids, created)) id is_new c = c

any-other :
    (host id : ℕ) (hosts : List ℕ)
    → not (host == id) ≡ true
    → any (λ h. h == host) hosts ≡ true
    → any (λ h. h == host) (keep (λ h. not (h == id)) hosts) ≡ true
any-other host id [] g h = h
any-other host id (x ∷ hosts) g h =
    let i = any-other host id hosts g in
    let a = ==_iff x host in let b = ==_iff x id in let c = ==_iff host id in ground arith

by_more_hosts :
    (id : ℕ) (hosts : List ℕ) (ss : List Sighting)
    → by_hosts hosts ss ≡ true
    → by_hosts (id ∷ hosts) ss ≡ true
by_more_hosts id hosts [] h = h
by_more_hosts id hosts (s ∷ ss) h = let i = by_more_hosts id hosts ss in ground arith

drop_host-IsValid : (id : ℕ) (tb : Tables) → IsValid tb → IsValid (drop_host id tb)
drop_host-IsValid id tb v =
    let stays = λ (s : Sighting). not (s.host == id) in
    record {
      keys = v.keys;
      ids = v.ids;
      pairs = pairs-keep stays tb.sightings v.pairs;
      devices_there =
          all-keep stays (λ s. has_device s.device tb.devices) (λ s. has_device s.device tb.devices)
            (λ s g h. h) tb.sightings v.devices_there;
      hosts_there =
          all-keep stays (λ s. any (λ h. h == s.host) tb.hosts)
            (λ s. any (λ h. h == s.host) (keep (λ h. not (h == id)) tb.hosts))
            (λ s g h. any-other s.host id tb.hosts g h) tb.sightings v.hosts_there;
    }

add_host-IsValid : (id : ℕ) (tb : Tables) → IsValid tb → IsValid (add_host id tb)
add_host-IsValid id tb v = record {
  keys = v.keys;
  ids = v.ids;
  pairs = v.pairs;
  devices_there = v.devices_there;
  hosts_there = by_more_hosts id tb.hosts tb.sightings v.hosts_there;
}

module _ (lower sql_lower : String → String) where
  sight_one-IsSighted :
      (now host : ℕ) (s : Seen) (tb : Tables)
      → IsValid tb
      → IsSighted (sight_one lower now host s tb)
  unfolding sight_one
  sight_one-IsSighted now host s tb v =
      sighted-IsSighted now host s.detail tb
        (found_or_added now s.kind (lower s.addr) tb.devices
          (find_id s.kind (lower s.addr) tb.devices))
        v (row-IsFound now s.kind (lower s.addr) tb v)

  sight_each-IsCommitted :
      (now host : ℕ) (seen : List Seen) (o : Option (Tables × ℕ × Bool))
      → IsSighted o
      → IsCommitted (sight_each lower now host seen o)
  unfolding sight_each
  sight_each-IsCommitted now host seen none v = tt
  sight_each-IsCommitted now host [] (some (tb, id, is_new)) v = v
  sight_each-IsCommitted now host (s ∷ seen) (some (tb, id, is_new)) v =
      and_so_on-IsCommitted (sight_each lower now host seen (sight_one lower now host s tb)) id
        is_new
        (sight_each-IsCommitted now host seen (sight_one lower now host s tb)
          (sight_one-IsSighted now host s tb v))

  sight_all-IsCommitted :
      (now host : ℕ) (seen : List Seen) (tb : Tables)
      → IsValid tb
      → IsCommitted (sight_all lower now host seen tb)
  unfolding sight_all
  sight_all-IsCommitted now host [] tb v = v
  sight_all-IsCommitted now host (s ∷ seen) tb v =
      sight_each-IsCommitted now host seen (sight_one lower now host s tb)
        (sight_one-IsSighted now host s tb v)

  act-IsValid : (tb : Tables) (a : Act) → IsValid tb → IsValid (act lower sql_lower tb a)
  unfolding act set_guess name_device forget_device forget_addrs forget_stale
  act-IsValid tb (sight now host seen) v =
      commit-IsValid tb (sight_all lower now host seen tb) v
        (sight_all-IsCommitted now host seen tb v)
  act-IsValid tb (guess id n k w) v =
      update_device-IsValid (λ d. record d { guess_name = n; guess_kind = k; vendor = w })
        (λ d. refl) (λ d. refl) (λ d. refl) id tb v
  act-IsValid tb (name id n k) v =
      update_device-IsValid (λ d. record d { name = trim_space n; user_kind = trim_space k })
        (λ d. refl) (λ d. refl) (λ d. refl) id tb v
  act-IsValid tb (forget id) v = delete_devices-IsValid (λ d. d.id == id) tb v
  act-IsValid tb (forget_own []) v = v
  act-IsValid tb (forget_own (a ∷ addrs)) v =
      delete_devices-IsValid (λ d. any (λ x. str_eq (sql_lower d.addr) (lower x)) (a ∷ addrs)) tb v
  act-IsValid tb (stale now days) v =
      delete_devices-IsValid (λ d. is_empty d.name && ltb (d.last_seen + days * 86_400) now) tb v
  act-IsValid tb (host_added id) v = add_host-IsValid id tb v
  act-IsValid tb (host_dropped id) v = drop_host-IsValid id tb v

  run_from-IsValid :
      (tb : Tables) (acts : List Act) → IsValid tb → IsValid (run lower sql_lower tb acts)
  unfolding run
  run_from-IsValid tb [] v = v
  run_from-IsValid tb (a ∷ acts) v =
      run_from-IsValid (act lower sql_lower tb a) acts (act-IsValid tb a v)

-- Whatever scans, guesses, names and deletions follow from empty tables, no two devices have one
-- kind and address or one id, and each sighting is the only one of its device by its host, both of
-- which are in their tables.
pub run-IsValid :
    (lower sql_lower : String → String) (acts : List Act) → IsValid (run lower sql_lower empty acts)
run-IsValid lower sql_lower acts =
    run_from-IsValid lower sql_lower empty acts
      (record { keys = refl; ids = refl; pairs = refl; devices_there = refl; hosts_there = refl })
