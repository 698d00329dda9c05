-- ===== src/Fleet/Mobile.antt =====
-- hub/internal/fleet/mobile.go: how a phone keeps its place, after it is paired. A phone's facts are JSON:
-- what a push makes of them is an argument; times are seconds.
use homedash.Prelude.{
  ℕ, ◌+◌, String, Bool, true, false, not, ◌&&◌, ◌||◌, Option, none, some, List, [], ◌∷◌, leb, ◌==◌,
  str_eq, if◌then◌else◌, ◌≡◌, ◌++◌,
}
use homedash.Prelude.Text.{is_empty}
use homedash.Hosts.{Status, online, offline}

pub record Phone : Type 0 where
  pub id : ℕ
  pub name : String
  pub is_mobile : Bool
  pub device_key : String
  pub status : Status
  pub last_seen : Option ℕ  -- none: no time that can be read
  pub facts : String

-- Three minutes.
abbrev pub mobile_stale : ℕ
mobile_stale = 180

unfoldable pub find_phone : ℕ → List Phone → Option Phone
find_phone id [] = none
find_phone id (h ∷ hs) = let rest = find_phone id hs in if h.id == id then some h else rest

-- `SetHostStatus` with facts.
unfoldable pub put_online : ℕ → ℕ → String → List Phone → List Phone
put_online now id facts [] = []
put_online now id facts (h ∷ hs) =
    let rest = put_online now id facts hs in
    if h.id == id
    then record h { status = online; facts = facts; last_seen = some now } ∷ rest
    else h ∷ rest

module _ (merge : String → String → String) where
  unfoldable pub push_from : ℕ → ℕ → String → String → List Phone → Option Phone → Bool × List Phone
  unfolding put_online
  push_from now id key facts hs none = (false, hs)
  push_from now id key facts hs (some h) =
      if not h.is_mobile || is_empty key || not (str_eq key h.device_key)
      then (false, hs)
      else (true, put_online now id (merge h.facts facts) hs)

  -- `SetMobileStatus` of the host with an id: whether the push was taken.
  unfoldable pub push : ℕ → ℕ → String → String → List Phone → Bool × List Phone
  unfolding push_from find_phone
  push now id key facts hs = push_from now id key facts hs (find_phone id hs)

abbrev pub is_offline : Status → Bool
is_offline offline = true
is_offline _ = false

abbrev is_old : ℕ → Option ℕ → Bool
is_old now none = false
is_old now (some seen) = leb (seen + mobile_stale) now

unfoldable pub is_stale : ℕ → Phone → Bool
is_stale now h = h.is_mobile && not (is_offline h.status) && is_old now h.last_seen

-- `markStaleMobile`: the hosts, and the notes of those that went offline.
unfoldable pub mark_stale : ℕ → List Phone → List Phone × List (String × String)
unfolding is_stale
mark_stale now [] = ([], [])
mark_stale now (h ∷ hs) =
    let (rest, notes) = mark_stale now hs in
    if is_stale now h
    then (record h { status = offline } ∷ rest, ("host.offline", h.name) ∷ notes)
    else (h ∷ rest, notes)

-- What is asked of a phone's row: mobile, known by its id, seen last at a time.
abbrev pub SeenAt : ℕ → Option Phone → Type 0
SeenAt t none = ⊥
SeenAt t (some h) = (h.is_mobile ≡ true) × (h.last_seen ≡ some t) × (h.status ≡ online)

abbrev pub status_of : Option Phone → Option Status
status_of none = none
status_of (some h) = some h.status

abbrev name_of : Option Phone → Option String
name_of none = none
name_of (some h) = some h.name

abbrev IsPhone : Option Phone → Type 0
IsPhone none = ⊥
IsPhone (some h) = h.is_mobile ≡ true

-- The rows that a look changes, in order, with what they are told as.
abbrev pub gone : Phone → Phone → List (String × String)
gone before after =
    if not (is_offline before.status) && is_offline after.status
    then ("host.offline", before.name) ∷ []
    else []

abbrev pub all_gone : List Phone → List Phone → List (String × String)
all_gone (b ∷ bs) (a ∷ as') = gone b a ++ all_gone bs as'
all_gone _ _ = []
