-- ===== src/Fleet/Sweep.antt =====
-- hub/internal/fleet/fleet.go: `Sweep`, one heartbeat on one machine, with `checkFullness` and the updates
-- of hub/internal/store/hosts.go. What the facts script gives is an argument, read from JSON already; a
-- notification is its kind and its subject; the load is a float and is left out.
use Prim.Native.String
use Prim.Native.Nat.{◌/◌}
use mathlib.Core.List.{append-nil}
use homedash.Prelude.{
  ℕ, ◌-◌, ◌*◌, ◌≡◌, refl, String, Bool, true, false, ◌&&◌, ◌||◌, Option, none, some, List, [], ◌∷◌,
  ◌++◌, ltb, leb, ◌==◌, str_eq, if◌then◌else◌, map, arith, str_eq_iff, Bool-cases, inl, inr,
}
use homedash.Prelude.Int.{ℤ, pos, negsuc}
use homedash.Prelude.Text.{trim_space, atoi, has_prefix}
use homedash.Hosts.{Status, unknown, online, offline, mismatch}
use homedash.Settings.{Settings}

pub record Mount : Type 0 where
  pub path : String
  pub size : ℕ
  pub free : ℕ

-- What the hub reads of the facts; `text` is all of them.
pub record Facts : Type 0 where
  pub text : String
  pub mem_used : ℕ
  pub mem_total : ℕ
  pub mounts : List Mount
  pub gpu_busy : Bool
  pub agent_model : Option String

pub record Metric : Type 0 where
  pub host_id : ℕ
  pub mem_used : ℕ
  pub mem_total : ℕ
  pub gpu_busy : Bool
  pub mounts : List (String × ℕ)

-- A machine's row.
pub record Card : Type 0 where
  pub id : ℕ
  pub name : String
  pub is_mobile : Bool
  pub status : Status
  pub facts : String
  pub agent_model : String

-- `full`: by machine and mount, whether it was above the threshold.
pub record House : Type 0 where
  pub cards : List Card
  pub metrics : List Metric
  pub full : List (String × Bool)
  pub notes : List (String × String)

-- A key that is not the pinned one, no answer or a script that failed, JSON that is no facts, facts.
pub data Heard : Type 0 where
  wrong_key : Heard
  silent : Heard
  other_json : String → Heard
  reads : Facts → Heard

abbrev pub ninety : ℕ
ninety = 90

abbrev pub percent_or : Option ℤ → ℕ
percent_or none = ninety
percent_or (some (negsuc n)) = ninety
percent_or (some (pos n)) = if ltb 0 n && ltb n 100 then n else ninety

-- `DiskPercent`.
unfoldable pub disk_percent : Settings → ℕ
disk_percent settings = percent_or (atoi (trim_space (settings "notify.disk_percent")))

abbrev pub mount_key : String → Mount → String
mount_key host m = String.◌++◌ host (String.◌++◌ ":" m.path)

abbrev pub is_above : ℕ → Mount → Bool
is_above pct m = leb pct (100 - m.free * 100 / m.size)

unfoldable pub was_above : String → List (String × Bool) → Option Bool
was_above key [] = none
was_above key (e ∷ es) = if str_eq e.0 key then some e.1 else was_above key es

unfoldable pub set_above : String → Bool → List (String × Bool) → List (String × Bool)
set_above key above [] = (key, above) ∷ []
set_above key above (e ∷ es) =
    let rest = set_above key above es in if str_eq e.0 key then (key, above) ∷ es else e ∷ rest

-- The crossing of the threshold, in either direction.
abbrev pub crossing : Option Bool → Bool → String → List (String × String)
crossing none true host = ("disk.full", host) ∷ []
crossing none false host = []
crossing (some true) true host = []
crossing (some false) false host = []
crossing (some false) true host = ("disk.full", host) ∷ []
crossing (some true) false host = ("disk.ok", host) ∷ []

abbrev pub is_passed_over : Mount → Bool
is_passed_over m = m.size == 0 || has_prefix m.path "/mnt/homedash/"

unfoldable pub check_mount : ℕ → String → Mount → House → House
check_mount pct host m s = if is_passed_over m then s else record s {
  full = set_above (mount_key host m) (is_above pct m) s.full;
  notes = s.notes ++ crossing (was_above (mount_key host m) s.full) (is_above pct m) host;
}

-- `checkFullness`.
unfoldable pub check_fullness : ℕ → String → List Mount → House → House
check_fullness pct host [] s = s
check_fullness pct host (m ∷ ms) s = check_fullness pct host ms (check_mount pct host m s)

abbrev pub metric_of : ℕ → Facts → Metric
metric_of id f = record {
  host_id = id;
  mem_used = f.mem_used;
  mem_total = f.mem_total;
  gpu_busy = f.gpu_busy;
  mounts = map (λ m. (m.path, m.free)) f.mounts;
}

abbrev pub status_of : Heard → Status
status_of wrong_key = mismatch
status_of silent = offline
status_of (other_json text) = online
status_of (reads f) = online

abbrev pub model_or : Option String → String
model_or none = ""
model_or (some model) = model

-- The facts and the model that are written, if any are.
abbrev pub written : Heard → Option (String × String)
written wrong_key = none
written silent = none
written (other_json text) = some (text, "")
written (reads f) = some (f.text, model_or f.agent_model)

abbrev pub updated : Status → Option (String × String) → Card → Card
updated status none c = record c { status = status }
updated status (some w) c = record c { status = status; facts = w.0; agent_model = w.1 }

unfoldable pub find_card : ℕ → List Card → Option Card
find_card id [] = none
find_card id (c ∷ cs) = if c.id == id then some c else find_card id cs

-- `SetHostStatus`: the status before, none where there is no row.
abbrev pub status_before : Option Card → Option Status
status_before none = none
status_before (some c) = some c.status

unfoldable pub set_host_status :
    ℕ → Status → Option (String × String) → List Card → Option Status × List Card
set_host_status id status w cards = (
  status_before (find_card id cards),
  map (λ c. if c.id == id then updated status w c else c) cards,
)

abbrev pub same_status : Status → Status → Bool
same_status unknown unknown = true
same_status online online = true
same_status offline offline = true
same_status mismatch mismatch = true
same_status _ _ = false

abbrev pub status_note : Status → String → String × String
status_note unknown name = ("host.unknown", name)
status_note online name = ("host.online", name)
status_note offline name = ("host.offline", name)
status_note mismatch name = ("host.mismatch", name)

abbrev pub transition : Option Status → Status → String → List (String × String)
transition none status name = []
transition (some before) status name =
    if same_status before status then [] else status_note status name ∷ []

unfoldable pub hear : ℕ → ℕ → String → Heard → House → House
hear pct id name wrong_key s = s
hear pct id name silent s = s
hear pct id name (other_json text) s = s
hear pct id name (reads f) s =
    let t = check_fullness pct name f.mounts s in
    record t { metrics = t.metrics ++ metric_of id f ∷ [] }

unfoldable pub settle : ℕ → String → Heard → House → House
settle id name heard s =
    let r = set_host_status id (status_of heard) (written heard) s.cards in
    record s { cards = r.1; notes = s.notes ++ transition r.0 (status_of heard) name }

-- `Sweep`.
unfoldable pub sweep : ℕ → ℕ → String → Bool → Heard → House → House
sweep pct id name is_mobile heard s =
    if is_mobile then s else settle id name heard (hear pct id name heard s)

was_above-set_above :
    (key : String) (b : Bool) (es : List (String × Bool))
    → was_above key (set_above key b es) ≡ some b
unfolding was_above set_above
was_above-set_above key b [] = let e = (str_eq_iff key key).1 refl in ground arith
was_above-set_above key b (x ∷ xs) =
    let i = was_above-set_above key b xs in let e = (str_eq_iff key key).1 refl in ground arith

crossing-same : (b : Bool) (host : String) → crossing (some b) b host ≡ []
crossing-same true host = refl
crossing-same false host = refl

-- A mount that reads the same in the next sweep is told of no second time.
check_mount-again :
    (pct : ℕ) (host : String) (m : Mount) (s : House)
    → (check_mount pct host m (check_mount pct host m s)).notes ≡ (check_mount pct host m s).notes
unfolding check_mount
check_mount-again pct host m s = elim (Bool-cases (is_passed_over m)) [
  | inl e ↦ rw (e) refl
  | inr e ↦ rw (e) (
      rw
        (
          was_above-set_above (mount_key host m) (is_above pct m) s.full,
          crossing-same (is_above pct m) host,
        )
        (append-nil _))
]

abbrev updated_card : Status → Option (String × String) → Option Card → Option Card
updated_card status w none = none
updated_card status w (some c) = some (updated status w c)

same_status-none :
    (status : Status) (name : String)
    → (if same_status status status then [] else status_note status name ∷ []) ≡ []
same_status-none unknown name = refl
same_status-none online name = refl
same_status-none offline name = refl
same_status-none mismatch name = refl

find_card-updated :
    (id : ℕ) (status : Status) (w : Option (String × String)) (cards : List Card)
    → find_card id (map (λ c. if c.id == id then updated status w c else c) cards)
      ≡ updated_card status w (find_card id cards)
unfolding find_card
find_card-updated id status none [] = refl
find_card-updated id status (some w) [] = refl
find_card-updated id status none (c ∷ cs) =
    let i = find_card-updated id status none cs in ground arith
find_card-updated id status (some w) (c ∷ cs) =
    let i = find_card-updated id status (some w) cs in ground arith

transition-same :
    (status : Status) (w : Option (String × String)) (o : Option Card) (name : String)
    → transition (status_before (updated_card status w o)) status name ≡ []
transition-same status w none name = refl
transition-same status none (some c) name = same_status-none status name
transition-same status (some w) (some c) name = same_status-none status name

-- A sweep that hears the same as the one before it notifies of no status.
settle-again :
    (id : ℕ) (name : String) (heard : Heard) (s : House)
    → (settle id name heard (settle id name heard s)).notes ≡ (settle id name heard s).notes
unfolding settle set_host_status
settle-again id name heard s =
    rw
      (
        find_card-updated id (status_of heard) (written heard) s.cards,
        transition-same (status_of heard) (written heard) (find_card id s.cards) name,
      )
      (append-nil _)
