-- ===== src/Devices/Rows.antt =====
-- hub/internal/store/devices.go: one sighting, and a deletion, keep the keys of the tables.
use homedash.Prelude.{
  ℕ, String, Bool, true, false, not, Option, none, some, List, [], ◌∷◌, ◌++◌, ◌==◌, ==_iff,
  if◌then◌else◌, any, keep, ◌≡◌, refl, arith, any-append, if-either, Bool-cases, Option-cases, inl,
  inr, ◌∙◌,
}
use homedash.Prelude.Text.{is_empty}
use homedash.Devices.{
  Device, Sighting, Tables, is_device, find_id, next_id, new_device, is_kind, update_device,
  found_or_added, sighted, has_device, delete_devices,
}
use homedash.Devices.Keys.{
  distinct_keys, distinct_ids, of_devices, IsValid, update_device-IsValid, has_device-update_device,
  next_id-new, find_id-none, keys-append, ids-append, of_devices-append,
}
use homedash.Devices.Upheld.{
  pairs-put_sighting, all-put_sighting, keys-keep, ids-keep, has_device-keep, pairs-keep, all-keep,
}

pub delete_devices-IsValid :
    (test : Device → Bool) (tb : Tables) → IsValid tb → IsValid (delete_devices test tb)
unfolding delete_devices
delete_devices-IsValid test tb v =
    let gone = λ (s : Sighting). not (has_device s.device (keep test tb.devices)) in
    record {
      keys = keys-keep (λ d. not (test d)) tb.devices v.keys;
      ids = ids-keep (λ d. not (test d)) tb.devices v.ids;
      pairs = pairs-keep gone tb.sightings v.pairs;
      devices_there =
          all-keep gone (λ s. has_device s.device tb.devices)
            (λ s. has_device s.device (keep (λ d. not (test d)) tb.devices))
            (λ s g h. has_device-keep test s.device tb.devices h (ground arith)) tb.sightings
            v.devices_there;
      hosts_there =
          all-keep gone (λ s. any (λ h. h == s.host) tb.hosts)
            (λ s. any (λ h. h == s.host) tb.hosts) (λ s g h. h) tb.sightings v.hosts_there;
    }

-- What the row of a sighting is found or added as.
pub record Found (ss : List Sighting) (ds : List Device) (id : ℕ) : Type 0 where
  pub keys : distinct_keys ds ≡ true
  pub ids : distinct_ids ds ≡ true
  pub there : has_device id ds ≡ true
  pub devices_there : of_devices ds ss ≡ true

abbrev pub IsFound : List Sighting → Option (List Device × ℕ × Bool) → Type 0
IsFound ss none = Unit
IsFound ss (some (ds, id, is_new)) = Found ss ds id

find_id-some :
    (kind addr : String) (ds : List Device) (id : ℕ)
    → find_id kind addr ds ≡ some id
    → has_device id ds ≡ true
unfolding find_id has_device
find_id-some kind addr [] id h = cc
find_id-some kind addr (d ∷ ds) id h = let i = find_id-some kind addr ds id in ground arith

append-IsFound :
    (now : ℕ) (kind addr : String) (tb : Tables)
    → IsValid tb
    → any (is_device kind addr) tb.devices ≡ false
    → Found tb.sightings
        (tb.devices ++ new_device now (next_id tb.devices) kind addr ∷ [])
        (next_id tb.devices)
unfolding new_device has_device
append-IsFound now kind addr tb v h =
    let n = next_id tb.devices in
    let new = new_device now n kind addr in
    record {
      keys = keys-append new tb.devices v.keys h;
      ids = ids-append new tb.devices v.ids (next_id-new n tb.devices (omega arith));
      there =
          let a = any-append (λ d. d.id == n) tb.devices (new ∷ []) in
          let e = (==_iff n n).1 refl in ground arith;
      devices_there = of_devices-append new tb.devices tb.sightings v.devices_there;
    }

touch-IsFound :
    (now : ℕ) (tb : Tables) (id : ℕ)
    → IsValid tb
    → has_device id tb.devices ≡ true
    → Found tb.sightings (update_device (λ d. record d { last_seen = now }) id tb.devices) id
touch-IsFound now tb id v h =
    let u =
      update_device-IsValid (λ d. record d { last_seen = now }) (λ d. refl) (λ d. refl) (λ d. refl)
        id tb v in
    record {
      keys = u.keys;
      ids = u.ids;
      there =
          has_device-update_device (λ d. record d { last_seen = now }) (λ d. refl) (λ d. refl)
            (λ d. refl) id id tb.devices
          ∙ h;
      devices_there = u.devices_there;
    }

pub row-IsFound :
    (now : ℕ) (kind addr : String) (tb : Tables)
    → IsValid tb
    → IsFound tb.sightings (found_or_added now kind addr tb.devices (find_id kind addr tb.devices))
unfolding found_or_added
row-IsFound now kind addr tb v = elim (Option-cases (find_id kind addr tb.devices)) [
  | inl e ↦ rw (e) (
      if-either (IsFound tb.sightings) (is_kind kind)
        (some (
          tb.devices ++ new_device now (next_id tb.devices) kind addr ∷ [],
          next_id tb.devices,
          true,
        ))
        none (append-IsFound now kind addr tb v (find_id-none kind addr tb.devices e)) tt)
  | inr (id, e) ↦ rw (e) (touch-IsFound now tb id v (find_id-some kind addr tb.devices id e))
]

abbrev pub IsSighted : Option (Tables × ℕ × Bool) → Type 0
IsSighted none = Unit
IsSighted (some (tb, id, is_new)) = IsValid tb

pub sighted-IsSighted :
    (now host : ℕ) (detail : String) (tb : Tables) (o : Option (List Device × ℕ × Bool))
    → IsValid tb
    → IsFound tb.sightings o
    → IsSighted (sighted now host detail tb o)
unfolding sighted
sighted-IsSighted now host detail tb none v f = tt
sighted-IsSighted now host detail tb (some (ds, id, is_new)) v f =
    let new : Sighting = record {
      device = id;
      host = host;
      seen = now;
      detail = if is_empty detail then "{}" else detail;
    } in
    elim (Bool-cases (any (λ h. h == host) tb.hosts)) [
      | inl e ↦ rw (e) (record {
        keys = f.keys;
        ids = f.ids;
        pairs = pairs-put_sighting new tb.sightings v.pairs;
        devices_there =
            all-put_sighting new (λ s. has_device s.device ds) tb.sightings f.there f.devices_there;
        hosts_there =
            all-put_sighting new (λ s. any (λ h. h == s.host) tb.hosts) tb.sightings e
              v.hosts_there;
      })
      | inr e ↦ rw (e) tt
    ]
