-- ===== src/Pool/Homes.antt =====
-- hub/internal/pool/pool.go: one decision per conversation. `conversationKeys` hashes the history;
-- the hash of the messages written so far is the parameter `digest` (SHA-256 over each message and
-- a zero byte, which no JSON text holds). Times are in seconds.
pub mod Kept
pub mod Followup
use homedash.Prelude.{
  ℕ, zero, suc, ◌+◌, ◌-◌, ◌≤◌, ◌<◌, ◌≡◌, refl, String, Bool, true, false, not, ◌&&◌, Option, none,
  some, List, [], ◌∷◌, ◌++◌, arith, ltb, str_eq, if◌then◌else◌, keep, length,
}
use homedash.Pool.{Pool, Home}

abbrev pub two_hours : ℕ
two_hours = 7200

abbrev pub one_hour : ℕ
one_hour = 3600

-- The loop over the messages, after `seen`: the hashes before the last message, and the last hash.
unfoldable pub keys_from :
    (List String → String) → List String → String → List String → List String × String
keys_from digest seen m [] = ([], digest (seen ++ m ∷ []))
keys_from digest seen m (next ∷ rest) =
    let (prefixes, key) = keys_from digest (seen ++ m ∷ []) next rest in
    (digest (seen ++ m ∷ []) ∷ prefixes, key)

-- The key of this turn, and the prefix keys.
unfoldable pub conversation_keys : (List String → String) → List String → String × List String
unfolding keys_from
conversation_keys digest [] = ("", [])
conversation_keys digest (m ∷ ms) =
    let (prefixes, key) = keys_from digest [] m ms in (key, prefixes)

unfoldable pub lookup : String → List (String × Home) → Option Home
lookup key [] = none
lookup key ((k, hm) ∷ rest) = if str_eq k key then some hm else lookup key rest

abbrev pub live : ℕ → Option Home → Option Home
live now none = none
live now (some hm) = if ltb (now - hm.at) two_hours then some hm else none

abbrev pub or_home : Option Home → Option Home → Option Home
or_home (some hm) other = some hm
or_home none other = other

-- From the longest prefix to the shortest: the first that has a home of the last two hours.
unfoldable pub home : ℕ → List String → List (String × Home) → Option Home
home now [] homes = none
home now (k ∷ ks) homes = or_home (home now ks homes) (live now (lookup k homes))

without : String → List (String × Home) → List (String × Home)
without key = keep (λ e. not (str_eq e.0 key))

-- A map above ten thousand entries forgets those older than an hour first.
unfoldable pub remember : ℕ → String → Home → Pool → Pool
unfolding without
remember now key hm p =
    let old =
      if ltb 10000 (length p.homes)
      then keep (λ e. not (ltb one_hour (now - e.1.at))) p.homes
      else p.homes in
    record p { homes = (key, hm) ∷ without key old }
