-- ===== src/Devices/Sight.antt =====
-- SightAll of hub/internal/store/devices.go: what touching rows and adding new ones keeps, a scan keeps.
use homedash.Prelude.{
  ℕ, String, Bool, true, Option, none, some, List, [], ◌∷◌, ◌++◌, ◌==◌, any, All, if-either,
  Bool-cases, inl, inr,
}
use homedash.Devices.{
  Device, Tables, Seen, find_id, next_id, new_device, is_kind, update_device, found_or_added,
  sighted, sight_one, and_so_on, sight_each, sight_all,
}

-- Where there is no error, the devices have it.
abbrev pub Keeps {ℓ κ} :
    {A : Type ℓ} {B : Type κ} → (List Device → Type 0) → Option (Tables × A × B) → Type 0
Keeps P none = Unit
Keeps P (some (tb, a, b)) = P tb.devices

module _ (P : List Device → Type 0) (Allowed : String → Type 0) (now : ℕ)
    (touch : (id : ℕ) (ds : List Device)
      → P ds
      → P (update_device (λ d. record d { last_seen = now }) id ds))
    (add : (id : ℕ) (kind addr : String) (ds : List Device)
      → Allowed addr
      → P ds
      → P (ds ++ new_device now id kind addr ∷ [])) where
  abbrev FoundKeeps : Option (List Device × ℕ × Bool) → Type 0
  FoundKeeps none = Unit
  FoundKeeps (some (ds, id, is_new)) = P ds

  found-keeps :
      (kind addr : String) (ds : List Device) (o : Option ℕ)
      → Allowed addr
      → P ds
      → FoundKeeps (found_or_added now kind addr ds o)
  unfolding found_or_added
  found-keeps kind addr ds (some id) a h = touch id ds h
  found-keeps kind addr ds none a h =
      if-either FoundKeeps (is_kind kind)
        (some (ds ++ new_device now (next_id ds) kind addr ∷ [], next_id ds, true)) none
        (add (next_id ds) kind addr ds a h) tt

  sighted-Keeps :
      (host : ℕ) (detail : String) (tb : Tables) (o : Option (List Device × ℕ × Bool))
      → FoundKeeps o
      → Keeps P (sighted now host detail tb o)
  unfolding sighted
  sighted-Keeps host detail tb none f = tt
  sighted-Keeps host detail tb (some (ds, id, is_new)) f =
      elim (Bool-cases (any (λ h. h == host) tb.hosts)) [ inl e ↦ rw (e) f | inr e ↦ rw (e) tt ]

  and_so_on-Keeps :
      (o : Option (Tables × List ℕ × List Bool)) (id : ℕ) (is_new : Bool)
      → Keeps P o
      → Keeps P (and_so_on o id is_new)
  unfolding and_so_on
  and_so_on-Keeps none id is_new c = tt
  and_so_on-Keeps (some (tb, ids, created)) id is_new c = c

  module _ (lower : String → String) (host : ℕ) where
    sight_one-Keeps :
        (s : Seen) (tb : Tables)
        → Allowed (lower s.addr)
        → P tb.devices
        → Keeps P (sight_one lower now host s tb)
    unfolding sight_one
    sight_one-Keeps s tb a h =
        let known = find_id s.kind (lower s.addr) tb.devices in
        sighted-Keeps host s.detail tb (found_or_added now s.kind (lower s.addr) tb.devices known)
          (found-keeps s.kind (lower s.addr) tb.devices known a h)

    sight_each-Keeps :
        (seen : List Seen) (o : Option (Tables × ℕ × Bool))
        → All (λ s. Allowed (lower s.addr)) seen
        → Keeps P o
        → Keeps P (sight_each lower now host seen o)
    unfolding sight_each
    sight_each-Keeps seen none a v = tt
    sight_each-Keeps [] (some (tb, id, is_new)) a v = v
    sight_each-Keeps (s ∷ seen) (some (tb, id, is_new)) (a, rest) v =
        and_so_on-Keeps (sight_each lower now host seen (sight_one lower now host s tb)) id is_new
          (sight_each-Keeps seen (sight_one lower now host s tb) rest (sight_one-Keeps s tb a v))

    pub sight_all-Keeps :
        (seen : List Seen) (tb : Tables)
        → All (λ s. Allowed (lower s.addr)) seen
        → P tb.devices
        → Keeps P (sight_all lower now host seen tb)
    unfolding sight_all
    sight_all-Keeps [] tb a v = v
    sight_all-Keeps (s ∷ seen) tb (a, rest) v =
        sight_each-Keeps seen (sight_one lower now host s tb) rest (sight_one-Keeps s tb a v)
