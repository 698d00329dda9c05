-- ===== src/Devices/Upheld.antt =====
-- hub/internal/store/devices.go: every statement on the devices keeps the keys of the tables.
use homedash.Prelude.{
  ℕ, Bool, true, false, not, List, [], ◌∷◌, ◌==◌, any, all, keep, ◌≡◌, refl, arith,
}
use homedash.Devices.{Device, Sighting, is_device, is_sighting, put_sighting, has_device}
use homedash.Devices.Keys.{distinct_keys, distinct_ids, distinct_sightings}

module _ (new : Sighting) where
  any-put_sighting :
      (id host : ℕ) (ss : List Sighting)
      → any (is_sighting id host) ss ≡ false
      → is_sighting id host new ≡ false
      → any (is_sighting id host) (put_sighting new ss) ≡ false
  unfolding put_sighting is_sighting
  any-put_sighting id host [] h k = ground arith
  any-put_sighting id host (s ∷ ss) h k = let i = any-put_sighting id host ss in ground arith

  pub pairs-put_sighting :
      (ss : List Sighting)
      → distinct_sightings ss ≡ true
      → distinct_sightings (put_sighting new ss) ≡ true
  unfolding put_sighting is_sighting
  pairs-put_sighting [] h = refl
  pairs-put_sighting (s ∷ ss) h =
      let i = pairs-put_sighting ss in let a = any-put_sighting s.device s.host ss in ground arith

  pub all-put_sighting :
      (p : Sighting → Bool) (ss : List Sighting)
      → p new ≡ true
      → all p ss ≡ true
      → all p (put_sighting new ss) ≡ true
  unfolding put_sighting
  all-put_sighting p [] n h = ground arith
  all-put_sighting p (s ∷ ss) n h = let i = all-put_sighting p ss n in ground arith

module _ (test : Device → Bool) where
  any-keep-false :
      (p : Device → Bool) (ds : List Device) → any p ds ≡ false → any p (keep test ds) ≡ false
  any-keep-false p [] h = refl
  any-keep-false p (d ∷ ds) h = let i = any-keep-false p ds in ground arith

  pub keys-keep : (ds : List Device) → distinct_keys ds ≡ true → distinct_keys (keep test ds) ≡ true
  keys-keep [] h = refl
  keys-keep (d ∷ ds) h =
      let i = keys-keep ds in let a = any-keep-false (is_device d.kind d.addr) ds in ground arith

  pub ids-keep : (ds : List Device) → distinct_ids ds ≡ true → distinct_ids (keep test ds) ≡ true
  unfolding has_device
  ids-keep [] h = refl
  ids-keep (d ∷ ds) h =
      let i = ids-keep ds in let a = any-keep-false (λ x. x.id == d.id) ds in ground arith

  -- A device that is there and does not go stays.
  pub has_device-keep :
      (id : ℕ) (ds : List Device)
      → has_device id ds ≡ true
      → has_device id (keep test ds) ≡ false
      → has_device id (keep (λ d. not (test d)) ds) ≡ true
  unfolding has_device
  has_device-keep id [] h k = h
  has_device-keep id (d ∷ ds) h k = let i = has_device-keep id ds in ground arith

module _ (p : Sighting → Bool) where
  any-keep_sightings :
      (q : Sighting → Bool) (ss : List Sighting) → any q ss ≡ false → any q (keep p ss) ≡ false
  any-keep_sightings q [] h = refl
  any-keep_sightings q (s ∷ ss) h = let i = any-keep_sightings q ss in ground arith

  pub pairs-keep :
      (ss : List Sighting) → distinct_sightings ss ≡ true → distinct_sightings (keep p ss) ≡ true
  pairs-keep [] h = refl
  pairs-keep (s ∷ ss) h =
      let i = pairs-keep ss in
      let a = any-keep_sightings (is_sighting s.device s.host) ss in ground arith

  -- What the rows that stay have, where it follows from the test and from what the rows had.
  pub all-keep :
      (q r : Sighting → Bool)
      → ((s : Sighting) → p s ≡ true → q s ≡ true → r s ≡ true)
      → (ss : List Sighting) → all q ss ≡ true
      → all r (keep p ss) ≡ true
  all-keep q r k [] h = refl
  all-keep q r k (s ∷ ss) h = let i = all-keep q r k ss in let one = k s in ground arith
