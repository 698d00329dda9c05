-- ===== src/Accounts.antt =====
-- hub/internal/store/auth.go: accounts, passkeys, sessions, invites and API tokens. A table is the
-- list of its rows; ids and codes, which the source draws at random, are arguments. The hash of a
-- token is the parameter `hash_token` (SHA-256). Times are in seconds; `created` of an account is the
-- second it was made.
pub mod Invites
pub mod Tokens
pub mod Examples
use homedash.Prelude.{
  ℕ, ◌+◌, String, Bool, true, false, not, ◌||◌, ◌&&◌, Option, none, some, List, [], ◌∷◌, ◌++◌, ltb,
  str_eq, if◌then◌else◌, any, keep, map, length,
}

pub record User : Type 0 where
  pub id : String
  pub name : String
  pub role : String
  pub created : ℕ

pub record Credential : Type 0 where
  pub id : String
  pub user_id : String

pub record Session : Type 0 where
  pub token : String
  pub user_id : String
  pub expires : ℕ

pub record Invite : Type 0 where
  pub code : String
  pub role : String
  pub user_id : Option String
  pub expires : ℕ
  pub used : Bool

pub record Token : Type 0 where
  pub hash : String
  pub name : String
  pub role : String

pub record Db : Type 0 where
  pub users : List User
  pub credentials : List Credential
  pub sessions : List Session
  pub invites : List Invite
  pub tokens : List Token

-- What a call answers: its value, or its error's text.
pub data Answer {ℓ} (A : Type ℓ) : Type ℓ where
  ok : A → Answer A
  fails : String → Answer A

abbrev pub find_user : (User → Bool) → List User → Option User
find_user test [] = none
find_user test (u ∷ us) = if test u then some u else find_user test us

unfoldable pub user_by_id : String → Db → Option User
user_by_id id db = find_user (λ u. str_eq u.id id) db.users

unfoldable pub user_by_name : String → Db → Option User
user_by_name name db = find_user (λ u. str_eq u.name name) db.users

abbrev owner_of : String → List Credential → Option String
owner_of cred_id [] = none
owner_of cred_id (c ∷ cs) = if str_eq c.id cred_id then some c.user_id else owner_of cred_id cs

unfoldable pub user_by_credential : String → Db → Option User
unfolding user_by_id
user_by_credential cred_id db = elim (owner_of cred_id db.credentials) [
  | none ↦ none
  | some id ↦ user_by_id id db
]

abbrev pub user_count : Db → ℕ
user_count db = length db.users

abbrev pub is_role : String → Bool
is_role role = str_eq role "admin" || str_eq role "viewer"

-- The keys and the check of the table `users`.
unfoldable pub create_user : ℕ → String → String → String → Db → Option User × Db
create_user now id name role db =
    let u : User = record { id = id; name = name; role = role; created = now } in
    if any (λ v. str_eq v.id id || str_eq v.name name) db.users || not (is_role role)
    then (none, db)
    else (some u, record db { users = db.users ++ u ∷ [] })

abbrev pub has_user : String → Db → Bool
has_user id db = any (λ u. str_eq u.id id) db.users

unfoldable pub add_credential : String → String → Db → Bool × Db
add_credential user_id cred_id db =
    if any (λ c. str_eq c.id cred_id) db.credentials || not (has_user user_id db)
    then (false, db)
    else (
      true,
      record db {
        credentials = db.credentials ++ (record { id = cred_id; user_id = user_id }) ∷ [];
      },
    )

abbrev belongs : String → Option String → Bool
belongs id none = false
belongs id (some owner) = str_eq owner id

-- A row of `users` that goes takes its passkeys, sessions and invites along.
abbrev pub drop_users : (User → Bool) → Db → Db
drop_users gone db =
    let left = keep (λ u. not (gone u)) db.users in
    let lost = keep gone db.users in
    record db {
      users = left;
      credentials = keep (λ c. not (any (λ u. str_eq c.user_id u.id) lost)) db.credentials;
      sessions = keep (λ s. not (any (λ u. str_eq s.user_id u.id) lost)) db.sessions;
      invites = keep (λ i. not (any (λ u. belongs u.id i.user_id) lost)) db.invites;
    }

unfoldable pub delete_user : String → Db → Db
delete_user name db = drop_users (λ u. str_eq u.name name) db

abbrev pub set_role_of : String → String → User → User
set_role_of name role u = if str_eq u.name name then record u { role = role } else u

-- An update that breaks the check changes nothing; one that meets no row is not checked.
unfoldable pub set_role : String → String → Db → Bool × Db
set_role name role db =
    if any (λ u. str_eq u.name name) db.users && not (is_role role)
    then (false, db)
    else (true, record db { users = map (set_role_of name role) db.users })

abbrev pub five_minutes : ℕ
five_minutes = 300

-- An account without a passkey that is older than five minutes.
abbrev pub is_abandoned : ℕ → Db → User → Bool
is_abandoned now db u =
    not (any (λ c. str_eq c.user_id u.id) db.credentials) && ltb (u.created + five_minutes) now

unfoldable pub prune_empty_users : ℕ → Db → Db
prune_empty_users now db = drop_users (is_abandoned now db) db

abbrev pub thirty_days : ℕ
thirty_days = 2592000

unfoldable pub new_session : (String → String) → ℕ → String → String → Db → Bool × Db
new_session hash_token now tok user_id db =
    if any (λ s. str_eq s.token (hash_token tok)) db.sessions || not (has_user user_id db)
    then (false, db)
    else (
      true,
      record db {
        sessions =
            db.sessions
            ++ (record { token = hash_token tok; user_id = user_id; expires = now + thirty_days })
              ∷ [];
      },
    )

abbrev pub find_session : (Session → Bool) → List Session → Option Session
find_session test [] = none
find_session test (s ∷ ss) = if test s then some s else find_session test ss

unfoldable pub session_user : (String → String) → ℕ → String → Db → Option User
unfolding user_by_id
session_user hash_token now token db =
    elim (find_session (λ s. str_eq s.token (hash_token token) && ltb now s.expires) db.sessions) [
      | none ↦ none
      | some s ↦ user_by_id s.user_id db
    ]

unfoldable pub delete_session : (String → String) → String → Db → Db
delete_session hash_token token db = record db {
  sessions = keep (λ s. not (str_eq s.token (hash_token token))) db.sessions;
}
