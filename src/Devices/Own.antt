-- ===== src/Devices/Own.antt =====
-- Merge of hub/internal/fleet/network.go: the hub's own machines are no devices.
use homedash.Prelude.{
  ℕ, String, Bool, true, false, not, ◌&&◌, ◌||◌, Option, none, some, List, [], ◌∷◌, ◌++◌, ◌==◌,
  str_eq, str_eq_iff, any, keep, map, ◌≡◌, refl, arith, any-append, All, All-append, if-either,
  if◌then◌else◌, Bool-cases, inl, inr,
}
use homedash.Prelude.Text.{trim_space, is_empty}
use homedash.Devices.{
  Device, Sighting, Tables, Seen, new_device, update_device, sight_all, set_guess, delete_devices,
  forget_addrs,
}
use homedash.Devices.Sight.{Keeps, sight_all-Keeps}
use homedash.Devices.Scans.{
  LanItem, Item, Scan, Store, Guess, items, is_own, add_seen, lan_seen, items_seen, found_by,
  sightings_of, find_device, guess_device, guess_each, merged, merge,
}

second : (a b : Bool) → (a || b) ≡ false → b ≡ false
second a b e = ground arith

module _ (own : List String) where
  -- No device has one of the addresses.
  abbrev pub is_clean : List Device → Bool
  is_clean ds = not (any (λ d. is_own own d.addr) ds)

  clean-update_device :
      (f : Device → Device) (id : ℕ) (ds : List Device)
      → ((d : Device) → (f d).addr ≡ d.addr)
      → is_clean ds ≡ true
      → is_clean (update_device f id ds) ≡ true
  unfolding update_device
  clean-update_device f id [] k h = h
  clean-update_device f id (d ∷ ds) k h =
      let i = clean-update_device f id ds k in
      let e = k d in
      elim (Bool-cases (d.id == id)) [
        | inl q ↦ rw (q) (rw (e) (ground arith))
        | inr q ↦ rw (q) (ground arith)
      ]

  clean-append :
      (new : Device) (ds : List Device)
      → is_own own new.addr ≡ false
      → is_clean ds ≡ true
      → is_clean (ds ++ new ∷ []) ≡ true
  clean-append new ds n h =
      let a = any-append (λ (d : Device). is_own own d.addr) ds (new ∷ []) in ground arith

  clean-guess :
      (identify : Device → List Sighting → Guess) (before : Tables) (o : Option Device)
      (tb : Tables)
      → is_clean tb.devices ≡ true
      → is_clean (guess_device identify before o tb).devices ≡ true
  unfolding guess_device set_guess
  clean-guess identify before none tb h = h
  clean-guess identify before (some d) tb h =
      let g = identify d (sightings_of d.id before.sightings) in
      if-either (λ (t : Tables). is_clean t.devices ≡ true)
        (str_eq g.name d.guess_name && str_eq g.kind d.guess_kind && str_eq g.vendor d.vendor) tb
        (set_guess d.id g.name g.kind g.vendor tb) h
        (clean-update_device
          (λ x. record x { guess_name = g.name; guess_kind = g.kind; vendor = g.vendor }) d.id
          tb.devices (λ x. refl) h)

  clean-guess_each :
      (identify : Device → List Sighting → Guess) (before : Tables) (ids : List ℕ) (tb : Tables)
      → is_clean tb.devices ≡ true
      → is_clean (guess_each identify before ids tb).devices ≡ true
  unfolding guess_each
  clean-guess_each identify before [] tb h = h
  clean-guess_each identify before (id ∷ ids) tb h =
      clean-guess_each identify before ids
        (guess_device identify before (find_device id before.devices) tb)
        (clean-guess identify before (find_device id before.devices) tb h)

  module _ (lower : String → String) (twice : (a : String) → lower (lower a) ≡ lower a) where
    -- What is taken up of a scan has none of the addresses.
    abbrev IsForeign : Seen → Type 0
    IsForeign s = is_own own (lower s.addr) ≡ false

    add_seen-All :
        (kind addr detail : String) (rest : List Seen)
        → All IsForeign rest
        → All IsForeign (add_seen own kind (lower addr) detail rest)
    unfolding add_seen
    add_seen-All kind addr detail rest h =
        let t = twice addr in
        elim (Bool-cases (is_empty (lower addr) || is_own own (lower addr))) [
          | inl e ↦ rw (e) h
          | inr e ↦ rw (e) (rw (t) (second (is_empty (lower addr)) (is_own own (lower addr)) e), h)
        ]

    lan_seen-All :
        (hub_addr : String) (ds : List LanItem) → All IsForeign (lan_seen lower own hub_addr ds)
    unfolding lan_seen
    lan_seen-All hub_addr [] = tt
    lan_seen-All hub_addr (d ∷ ds) =
        let rest = lan_seen lower own hub_addr ds in
        if-either (All IsForeign) (not (is_empty hub_addr) && str_eq d.ip hub_addr) rest
          (add_seen own "lan" (lower d.mac) d.detail rest) (lan_seen-All hub_addr ds)
          (add_seen-All "lan" d.mac d.detail rest (lan_seen-All hub_addr ds))

    items_seen-All : (kind : String) (ds : List Item) → All IsForeign (items_seen lower own kind ds)
    unfolding items_seen
    items_seen-All kind [] = tt
    items_seen-All kind (d ∷ ds) =
        add_seen-All kind d.addr d.detail (items_seen lower own kind ds) (items_seen-All kind ds)

    found_by-All : (hub_addr : String) (sc : Scan) → All IsForeign (found_by lower own hub_addr sc)
    unfolding found_by
    found_by-All hub_addr sc =
        let lan = lan_seen lower own hub_addr (items sc.lan) in
        let wifi = items_seen lower own "wifi" (items sc.wifi) in
        let bt = items_seen lower own "bt" (items sc.bt) in
        All-append IsForeign (lan ++ wifi) bt
          (All-append IsForeign lan wifi (lan_seen-All hub_addr (items sc.lan))
            (items_seen-All "wifi" (items sc.wifi)))
          (items_seen-All "bt" (items sc.bt))

    clean-merged :
        (identify : Device → List Sighting → Guess) (relists : Bool) (found : List Seen)
        (tb : Tables) (o : Option (Tables × List ℕ × List Bool))
        → is_clean tb.devices ≡ true
        → Keeps (λ ds. is_clean ds ≡ true) o
        → is_clean (merged identify relists found tb o).0.devices ≡ true
    unfolding merged
    clean-merged identify relists found tb none h k = h
    clean-merged identify true found tb (some (later, ids, created)) h k =
        clean-guess_each identify later ids later k
    clean-merged identify false found tb (some (later, ids, created)) h k = k

none_own : (ds : List Device) → is_clean [] ds ≡ true
unfolding is_own
none_own [] = refl
none_own (d ∷ ds) = none_own ds

clean-new :
    (own : List String) (now id : ℕ) (kind addr : String) (ds : List Device)
    → is_own own addr ≡ false
    → is_clean own ds ≡ true
    → is_clean own (ds ++ new_device now id kind addr ∷ []) ≡ true
unfolding new_device
clean-new own now id kind addr ds n h = clean-append own (new_device now id kind addr) ds n h

-- What a Merge leaves, by whether it could list the hosts and delete: no device with one of the
-- addresses, or the tables that were, no event and an error.
abbrev pub Leaves : Bool → List String → Tables → Tables × List (String × String) × Bool → Type 0
Leaves true own before r = is_clean own r.0.devices ≡ true
Leaves false own before r = r ≡ (before, [], false)

-- The deletion takes every device with one of the addresses.
module _ (lower sql_lower : String → String) (twice : (a : String) → lower (lower a) ≡ lower a)
    (agree : (a : String) → sql_lower (lower a) ≡ lower a) where
  forgets :
      (macs : List String) (addr : String)
      → is_own (map lower macs) addr ≡ true
      → any (λ x. str_eq (sql_lower addr) (lower x)) (map lower macs) ≡ true
  unfolding is_own
  forgets [] addr h = h
  forgets (m ∷ macs) addr h =
      let i = forgets macs addr in
      let a = str_eq_iff (lower m) addr in
      let b = str_eq_iff (sql_lower addr) (lower (lower m)) in
      let t = twice m in let g = agree m in ground arith

  clean-keep :
      (macs : List String) (ds : List Device)
      → is_clean
          (map lower macs)
          (keep (λ d. not (any (λ x. str_eq (sql_lower d.addr) (lower x)) (map lower macs))) ds)
        ≡ true
  clean-keep macs [] = refl
  clean-keep macs (d ∷ ds) =
      let i = clean-keep macs ds in let f = forgets macs d.addr in ground arith

  clean-forget_addrs :
      (macs : List String) (tb : Tables)
      → is_clean (map lower macs) (forget_addrs lower sql_lower (map lower macs) tb).devices ≡ true
  unfolding forget_addrs delete_devices is_own
  clean-forget_addrs [] tb = none_own tb.devices
  clean-forget_addrs (m ∷ macs) tb = clean-keep (m ∷ macs) tb.devices

  -- After a Merge that could list the hosts and delete, also one that fails later, no device has an
  -- address of the interfaces that the hosts' facts and the hub itself report, whatever the scan saw
  -- and the table held; a Merge that could not leaves the tables as they were, with no event, and
  -- fails. It relies on lower case being idempotent, and on SQLite's leaving alone what is in Go's
  -- lower case.
  pub merge-is_clean :
      (identify : Device → List Sighting → Guess) (st : Store) (macs : List String)
      (hub_addr : String) (now host : ℕ) (sc : Scan) (tb : Tables)
      → Leaves
          (st.lists_hosts && st.forgets)
          (map lower macs)
          tb
          (merge lower sql_lower identify st macs hub_addr now host sc tb)
  unfolding merge
  merge-is_clean identify st macs hub_addr now host sc tb =
      let own = map lower macs in
      let found = found_by lower own (trim_space hub_addr) sc in
      let forgotten = forget_addrs lower sql_lower own tb in
      let h = clean-forget_addrs macs tb in
      let kept =
        sight_all-Keeps (λ ds. is_clean own ds ≡ true) (λ addr. is_own own addr ≡ false) now
          (λ id ds k.
            clean-update_device own (λ d. record d { last_seen = now }) id ds (λ d. refl) k)
          (λ id kind addr ds n k. clean-new own now id kind addr ds n k) lower host found forgotten
          (found_by-All own lower twice (trim_space hub_addr) sc) h in
      elim (Bool-cases (st.lists_hosts && st.forgets)) [
        | inl e ↦ rw (e) (
            clean-merged own lower twice identify st.lists_devices found forgotten
              (if st.sights then sight_all lower now host found forgotten else none) h
              (if-either (Keeps (λ ds. is_clean own ds ≡ true)) st.sights
                (sight_all lower now host found forgotten) none kept tt))
        | inr e ↦ rw (e) refl
      ]
