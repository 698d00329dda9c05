-- ===== src/Devices/Keys.antt =====
-- hub/internal/store/devices.go: the keys of the tables of devices and sightings hold whatever is
-- done to them.
use homedash.Prelude.{
  ℕ, ◌≤◌, String, Bool, true, false, not, ◌&&◌, none, List, [], ◌∷◌, ◌++◌, ◌==◌, str_eq_iff, any,
  all, ◌≡◌, refl, arith, any-append, Bool-cases, inl, inr, ◌∙◌,
}
use homedash.Devices.{
  Device, Sighting, Tables, is_device, find_id, next_id, update_device, is_sighting, has_device,
}

abbrev pub distinct_keys : List Device → Bool
distinct_keys [] = true
distinct_keys (d ∷ ds) = not (any (is_device d.kind d.addr) ds) && distinct_keys ds

abbrev pub distinct_ids : List Device → Bool
distinct_ids [] = true
distinct_ids (d ∷ ds) = not (has_device d.id ds) && distinct_ids ds

abbrev pub distinct_sightings : List Sighting → Bool
distinct_sightings [] = true
distinct_sightings (s ∷ ss) = not (any (is_sighting s.device s.host) ss) && distinct_sightings ss

abbrev pub of_devices : List Device → List Sighting → Bool
of_devices ds = all (λ s. has_device s.device ds)

abbrev pub by_hosts : List ℕ → List Sighting → Bool
by_hosts hosts = all (λ s. any (λ h. h == s.host) hosts)

-- The keys: of devices their kind and address and their id, of sightings the device and the host,
-- both of which are there.
pub record IsValid (tb : Tables) : Type 0 where
  pub keys : distinct_keys tb.devices ≡ true
  pub ids : distinct_ids tb.devices ≡ true
  pub pairs : distinct_sightings tb.sightings ≡ true
  pub devices_there : of_devices tb.devices tb.sightings ≡ true
  pub hosts_there : by_hosts tb.hosts tb.sightings ≡ true

-- An update that leaves the keys alone.
module _ (f : Device → Device) (ids : (d : Device) → (f d).id ≡ d.id)
    (kinds : (d : Device) → (f d).kind ≡ d.kind) (addrs : (d : Device) → (f d).addr ≡ d.addr)
    (id : ℕ) where
  any-update_device :
      (kind addr : String) (ds : List Device)
      → any (is_device kind addr) (update_device f id ds) ≡ any (is_device kind addr) ds
  unfolding update_device is_device
  any-update_device kind addr [] = refl
  any-update_device kind addr (d ∷ ds) =
      let i = any-update_device kind addr ds in let k = kinds d in let a = addrs d in ground arith

  pub has_device-update_device :
      (n : ℕ) (ds : List Device) → has_device n (update_device f id ds) ≡ has_device n ds
  unfolding update_device has_device
  has_device-update_device n [] = refl
  has_device-update_device n (d ∷ ds) =
      let i = has_device-update_device n ds in let k = ids d in ground arith

  keys-update_device : (ds : List Device) → distinct_keys (update_device f id ds) ≡ distinct_keys ds
  unfolding update_device
  keys-update_device [] = refl
  keys-update_device (d ∷ ds) =
      let i = keys-update_device ds in
      let a = any-update_device d.kind d.addr ds in
      let k = kinds d in
      let q = addrs d in
      elim (Bool-cases (d.id == id)) [
        | inl e ↦ rw (e) (rw (k, q, a, i) refl)
        | inr e ↦ rw (e) (rw (a, i) refl)
      ]

  ids-update_device : (ds : List Device) → distinct_ids (update_device f id ds) ≡ distinct_ids ds
  unfolding update_device
  ids-update_device [] = refl
  ids-update_device (d ∷ ds) =
      let i = ids-update_device ds in
      let a = has_device-update_device d.id ds in
      let k = ids d in
      elim (Bool-cases (d.id == id)) [
        | inl e ↦ rw (e) (rw (k, a, i) refl)
        | inr e ↦ rw (e) (rw (a, i) refl)
      ]

  pub of_devices-update_device :
      (ds : List Device) (ss : List Sighting)
      → of_devices (update_device f id ds) ss ≡ of_devices ds ss
  of_devices-update_device ds [] = refl
  of_devices-update_device ds (s ∷ ss) =
      let i = of_devices-update_device ds ss in
      let a = has_device-update_device s.device ds in rw (i, a) refl

  pub update_device-IsValid :
      (tb : Tables) → IsValid tb → IsValid (record tb { devices = update_device f id tb.devices })
  update_device-IsValid tb v = record {
    keys = keys-update_device tb.devices ∙ v.keys;
    ids = ids-update_device tb.devices ∙ v.ids;
    pairs = v.pairs;
    devices_there = of_devices-update_device tb.devices tb.sightings ∙ v.devices_there;
    hosts_there = v.hosts_there;
  }

-- The id of a new row is not in use.
pub next_id-new : (n : ℕ) (ds : List Device) → next_id ds ≤ n → has_device n ds ≡ false
unfolding next_id has_device
next_id-new n [] h = refl
next_id-new n (d ∷ ds) h = let i = next_id-new n ds in ground arith

pub find_id-none :
    (kind addr : String) (ds : List Device)
    → find_id kind addr ds ≡ none
    → any (is_device kind addr) ds ≡ false
unfolding find_id
find_id-none kind addr [] h = refl
find_id-none kind addr (d ∷ ds) h = let i = find_id-none kind addr ds in ground arith

module _ (new : Device) where
  pub keys-append :
      (ds : List Device)
      → distinct_keys ds ≡ true
      → any (is_device new.kind new.addr) ds ≡ false
      → distinct_keys (ds ++ new ∷ []) ≡ true
  unfolding is_device
  keys-append [] v h = refl
  keys-append (d ∷ ds) v h =
      let i = keys-append ds in
      let a = any-append (is_device d.kind d.addr) ds (new ∷ []) in
      let k = str_eq_iff d.kind new.kind in
      let l = str_eq_iff new.kind d.kind in
      let m = str_eq_iff d.addr new.addr in let n = str_eq_iff new.addr d.addr in ground arith

  pub ids-append :
      (ds : List Device)
      → distinct_ids ds ≡ true
      → has_device new.id ds ≡ false
      → distinct_ids (ds ++ new ∷ []) ≡ true
  unfolding has_device
  ids-append [] v h = refl
  ids-append (d ∷ ds) v h =
      let i = ids-append ds in let a = any-append (λ x. x.id == d.id) ds (new ∷ []) in ground arith

  pub of_devices-append :
      (ds : List Device) (ss : List Sighting)
      → of_devices ds ss ≡ true
      → of_devices (ds ++ new ∷ []) ss ≡ true
  unfolding has_device
  of_devices-append ds [] h = refl
  of_devices-append ds (s ∷ ss) h =
      let i = of_devices-append ds ss in
      let a = any-append (λ d. d.id == s.device) ds (new ∷ []) in ground arith
