-- ===== src/Devices/Words.antt =====
-- hub/internal/store/devices.go: a person's word on a device, which sightings and the hub's guesses
-- leave alone.
use homedash.Prelude.{
  ℕ, ◌+◌, ◌*◌, String, Bool, true, false, not, ◌&&◌, Option, none, some, List, [], ◌∷◌, ◌++◌, ltb,
  ◌==◌, str_eq, str_eq_iff, any, keep, ◌≡◌, refl, arith, any-append, All, Bool-cases, inl, inr, ap,
  ◌∙◌,
}
use homedash.Prelude.Text.{is_empty}
use homedash.Devices.{
  Device, Tables, Seen, new_device, update_device, sight_all, set_guess, delete_devices,
  forget_stale, forget_addrs,
}
use homedash.Devices.Sight.{Keeps, sight_all-Keeps}
use homedash.Devices.Acts.{
  Act, sight, guess, name, forget, forget_own, stale, host_added, host_dropped, commit, act, run,
}

-- A device with what a person said of it.
pub record Word : Type 0 where
  pub id : ℕ
  pub kind : String
  pub addr : String
  pub name : String
  pub user_kind : String

unfoldable pub says : Word → Device → Bool
says w d =
    d.id == w.id
    && str_eq d.kind w.kind
    && str_eq d.addr w.addr
    && str_eq d.name w.name
    && str_eq d.user_kind w.user_kind

abbrev pub has_word : Word → List Device → Bool
has_word w = any (says w)

-- Everything but a person's own calls; of what `Merge` deletes, the addresses are not the device's.
abbrev pub Spares : (String → String) → (String → String) → Word → Act → Type 0
Spares lower sql_lower w (sight now host seen) = Unit
Spares lower sql_lower w (guess id n k v) = Unit
Spares lower sql_lower w (name id n k) = ⊥
Spares lower sql_lower w (forget id) = ⊥
Spares lower sql_lower w (forget_own addrs) =
    any (λ x. str_eq (sql_lower w.addr) (lower x)) addrs ≡ false
Spares lower sql_lower w (stale now days) = Unit
Spares lower sql_lower w (host_added id) = Unit
Spares lower sql_lower w (host_dropped id) = Unit

module _ (w : Word) where
  word-update_device :
      (f : Device → Device) (id : ℕ) (ds : List Device)
      → ((d : Device) → says w (f d) ≡ says w d)
      → has_word w ds ≡ true
      → has_word w (update_device f id ds) ≡ true
  unfolding update_device
  word-update_device f id [] k h = h
  word-update_device f id (d ∷ ds) k h =
      let i = word-update_device f id ds k in let e = k d in ground arith

  word-append :
      (new : Device) (ds : List Device) → has_word w ds ≡ true → has_word w (ds ++ new ∷ []) ≡ true
  word-append new ds h = let a = any-append (says w) ds (new ∷ []) in ground arith

  named : (d : Device) → is_empty w.name ≡ false → says w d ≡ true → is_empty d.name ≡ false
  unfolding says
  named d n h =
      let a = str_eq_iff d.name w.name in let e : d.name ≡ w.name = ground arith in rw (e) n

  of_address : (d : Device) → says w d ≡ true → d.addr ≡ w.addr
  unfolding says
  of_address d h = let a = str_eq_iff d.addr w.addr in ground arith

  -- A device with a name does not go stale.
  word-keep :
      (old : Device → Bool) (ds : List Device)
      → is_empty w.name ≡ false
      → has_word w ds ≡ true
      → has_word w (keep (λ d. not (is_empty d.name && old d)) ds) ≡ true
  word-keep old [] n h = h
  word-keep old (d ∷ ds) n h = let i = word-keep old ds n in let a = named d n in ground arith

  -- A deletion that matches no device of the word's address spares its row.
  word-keep_address :
      (match : String → Bool) (ds : List Device)
      → match w.addr ≡ false
      → has_word w ds ≡ true
      → has_word w (keep (λ d. not (match d.addr)) ds) ≡ true
  word-keep_address match [] m h = h
  word-keep_address match (d ∷ ds) m h =
      let i = word-keep_address match ds m in
      elim (Bool-cases (says w d)) [
        | inl e ↦
            let a : match d.addr ≡ false = ap match (of_address d e) ∙ m in rw (a) (rw (e) refl)
        | inr e ↦ ground arith
      ]

  word-commit :
      (tb : Tables) (o : Option (Tables × List ℕ × List Bool))
      → has_word w tb.devices ≡ true
      → Keeps (λ ds. has_word w ds ≡ true) o
      → has_word w (commit tb o).devices ≡ true
  unfolding commit
  word-commit tb none h c = h
  word-commit tb (some (later, ids, created)) h c = c

  any_address : (seen : List Seen) → All (λ s. Unit {0}) seen
  any_address [] = tt
  any_address (s ∷ seen) = (tt, any_address seen)

  module _ (lower sql_lower : String → String) where
    word-act :
        (tb : Tables) (a : Act)
        → Spares lower sql_lower w a
        → is_empty w.name ≡ false
        → has_word w tb.devices ≡ true
        → has_word w (act lower sql_lower tb a).devices ≡ true
    unfolding act set_guess forget_addrs forget_stale delete_devices says
    word-act tb (sight now host seen) q n h = word-commit tb (sight_all lower now host seen tb) h (
        sight_all-Keeps (λ ds. has_word w ds ≡ true) (λ addr. Unit {0}) now
          (λ id ds k. word-update_device (λ d. record d { last_seen = now }) id ds (λ d. refl) k)
          (λ id kind addr ds a k. word-append (new_device now id kind addr) ds k) lower host seen tb
          (any_address seen) h)
    word-act tb (guess id g k v) q n h =
        word-update_device (λ d. record d { guess_name = g; guess_kind = k; vendor = v }) id
          tb.devices (λ d. refl) h
    word-act tb (name id g k) q n h = absurd q
    word-act tb (forget id) q n h = absurd q
    word-act tb (forget_own []) q n h = h
    word-act tb (forget_own (a ∷ addrs)) q n h =
        word-keep_address (λ addr. any (λ x. str_eq (sql_lower addr) (lower x)) (a ∷ addrs))
          tb.devices q h
    word-act tb (stale now days) q n h =
        word-keep (λ d. ltb (d.last_seen + days * 86_400) now) tb.devices n h
    word-act tb (host_added id) q n h = h
    word-act tb (host_dropped id) q n h = h

-- A device that a person gave a name keeps its row, that name and the person's kind, whatever
-- sightings, guesses and forgetting of stale devices follow, whatever hosts come and go, and whatever
-- addresses of the hub's own machines the scans delete, as long as its own is not among them.
pub run-has_word :
    (lower sql_lower : String → String) (w : Word) (tb : Tables) (acts : List Act)
    → is_empty w.name ≡ false
    → All (Spares lower sql_lower w) acts
    → has_word w tb.devices ≡ true
    → has_word w (run lower sql_lower tb acts).devices ≡ true
unfolding run
run-has_word lower sql_lower w tb [] n q h = h
run-has_word lower sql_lower w tb (a ∷ acts) n (q, qs) h =
    run-has_word lower sql_lower w (act lower sql_lower tb a) acts n qs
      (word-act w lower sql_lower tb a q n h)
