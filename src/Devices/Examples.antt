-- ===== src/Devices/Examples.antt =====
-- Tests of the devices, and each theorem at a concrete state.
use homedash.Prelude.{String, true, false, some, none, List, [], ◌∷◌, ◌≡◌, refl, map}
use homedash.Prelude.Text.{trim_space, trim_left, trim_right, is_space}
use homedash.Devices.{
  Device, Sighting, Tables, Seen, is_device, find_id, next_id, new_device, update_device,
  is_sighting, put_sighting, found_or_added, sighted, sight_one, and_so_on, sight_each, sight_all,
  has_device, delete_devices, forget_addrs,
}
use homedash.Devices.Keys.{IsValid}
use homedash.Devices.Acts.{
  sight, guess, forget_own, stale, host_added, host_dropped, act, run, empty, run-IsValid,
}
use homedash.Devices.Words.{Word, says, has_word, run-has_word}
use homedash.Devices.Scans.{
  Scan, Guess, Store, is_own, add_seen, lan_seen, items_seen, found_by, new_events, merged, merge,
}
use homedash.Devices.Own.{Leaves, merge-is_clean}

abbrev as_is : String → String
as_is s = s

abbrev tv : Seen
tv = record { kind = "lan"; addr = "aa:01"; detail = "" }

abbrev cafe : Seen
cafe = record { kind = "wifi"; addr = "aa:02"; detail = "{}" }

abbrev seen_twice : Tables
seen_twice = record {
  devices = record (new_device 5 1 "lan" "aa:01") { last_seen = 9; name = "tv" } ∷ [];
  sightings = record { device = 1; host = 7; seen = 9; detail = "{}" } ∷ [];
  hosts = 7 ∷ [];
}

-- A device is added once, whatever host sees it again.
sight_test :
    sight_all as_is 9 7
      (tv ∷ cafe ∷ tv ∷ [])
      (record { devices = []; sightings = []; hosts = 7 ∷ [] })
    ≡ some (
      record {
        devices =
            record (new_device 9 1 "lan" "aa:01") { last_seen = 9 }
            ∷ new_device 9 2 "wifi" "aa:02"
            ∷ [];
        sightings =
            record { device = 1; host = 7; seen = 9; detail = "{}" }
            ∷ record { device = 2; host = 7; seen = 9; detail = "{}" }
            ∷ [];
        hosts = 7 ∷ [];
      },
      1 ∷ 2 ∷ 1 ∷ [],
      true ∷ true ∷ false ∷ [],
    )
unfolding sight_all sight_each sight_one sighted found_or_added find_id next_id new_device
    update_device put_sighting is_sighting and_so_on is_device
sight_test = refl

-- A kind that the table does not know, and a host that is not there.
refused_test : sight_all as_is 9 8 (tv ∷ []) seen_twice ≡ none
unfolding sight_all sight_each sight_one sighted found_or_added find_id next_id new_device
    update_device is_device
refused_test = refl

run-IsValid_example : IsValid (
    run as_is as_is empty
      (host_added 7 ∷ sight 5 7 (tv ∷ cafe ∷ []) ∷ stale 9_000_000 30 ∷ host_dropped 7 ∷ []))
run-IsValid_example =
    run-IsValid as_is as_is
      (host_added 7 ∷ sight 5 7 (tv ∷ cafe ∷ []) ∷ stale 9_000_000 30 ∷ host_dropped 7 ∷ [])

abbrev said : Word
said = record { id = 1; kind = "lan"; addr = "aa:01"; name = "tv"; user_kind = "" }

run-has_word_example :
    has_word said
      (run as_is as_is seen_twice (
        forget_own ("bb:09" ∷ [])
        ∷ sight 10 7 (tv ∷ [])
        ∷ guess 1 "x" "tv" "acme"
        ∷ stale 9_000_000 30
        ∷ [])).devices
    ≡ true
unfolding new_device says
run-has_word_example =
    run-has_word as_is as_is said seen_twice
      (forget_own ("bb:09" ∷ [])
        ∷ sight 10 7 (tv ∷ [])
        ∷ guess 1 "x" "tv" "acme"
        ∷ stale 9_000_000 30
        ∷ [])
      refl (refl, (tt, (tt, (tt, tt)))) refl

abbrev all_well : Store
all_well = record { lists_hosts = true; forgets = true; sights = true; lists_devices = true }

-- A named device whose address becomes that of a machine of the hub is deleted, and its name with it.
word_lost : has_word said (act as_is as_is seen_twice (forget_own ("aa:01" ∷ []))).devices ≡ false
unfolding act forget_addrs delete_devices says new_device
word_lost = refl

abbrev the_scan : Scan
the_scan = record {
  lan = some (record { mac = "aa:01"; ip = "10.0.0.9"; detail = "{}" } ∷ []);
  wifi = some (record { addr = "aa:02"; detail = "{}" } ∷ []);
  bt = none;
}

abbrev no_guess : Device → List Sighting → Guess
no_guess d ss = record { name = ""; kind = ""; vendor = "" }

-- A hub whose hosts cannot be listed keeps the rows of its own machines.
merge_unread :
    (merge as_is as_is no_guess
      (record all_well { lists_hosts = false })
      ("aa:01" ∷ [])
      ""
      9
      7
      the_scan
      seen_twice).0
    ≡ seen_twice
unfolding merge
merge_unread = refl

merge_test :
    (merge as_is as_is no_guess all_well ("aa:01" ∷ []) "" 9 7 the_scan seen_twice).1
    ≡ ("wifi", "aa:02") ∷ []
unfolding merge merged found_by lan_seen items_seen add_seen is_own forget_addrs delete_devices
    has_device trim_space trim_left trim_right is_space sight_all sight_each sight_one sighted
    found_or_added find_id next_id new_device put_sighting and_so_on is_device new_events
merge_test = refl

merge-is_clean_example :
    Leaves true
      (map as_is ("aa:01" ∷ []))
      seen_twice
      (merge as_is as_is no_guess all_well ("aa:01" ∷ []) "" 9 7 the_scan seen_twice)
merge-is_clean_example =
    merge-is_clean as_is as_is (λ a. refl) (λ a. refl) no_guess all_well ("aa:01" ∷ []) "" 9 7
      the_scan seen_twice
