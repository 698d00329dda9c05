-- ===== src/SignIn.antt =====
-- hub/internal/auth/auth.go: passkey ceremonies and CLI grants. What WebAuthn answers is an argument:
-- whether a ceremony could begin, and the id of the passkey that a browser proved. Ids drawn at random
-- are arguments, the clock is in seconds.
pub mod Grants
pub mod Ceremonies
pub mod Examples
use homedash.Prelude.{
  ℕ, ◌+◌, String, Bool, true, false, not, ◌||◌, ◌&&◌, Option, none, some, List, [], ◌∷◌, ltb, leb,
  str_eq, ◌==◌, if◌then◌else◌, any, keep,
}
use homedash.Prelude.Text.{trim_space}
use homedash.Accounts.{
  Db, User, Answer, ok, fails, user_by_id, user_by_name, user_by_credential, user_count,
  create_user, add_credential, prune_empty_users, new_session,
}
use homedash.Accounts.Invites.{peek_invite, use_invite}

pub record Ceremony : Type 0 where
  pub user : Option User
  pub role : String
  pub invite : String
  pub expires : ℕ

pub record Grant : Type 0 where
  pub user_id : String
  pub expires : ℕ

-- The two maps are lists of pairs, the last one written first.
pub record Auth : Type 0 where
  pub db : Db
  pub inflight : List (String × Ceremony)
  pub grants : List (String × Grant)

module _ {A : Type 0} where
  abbrev pub get : String → List (String × A) → Option A
  get key [] = none
  get key (e ∷ rest) = if str_eq e.0 key then some e.1 else get key rest

  abbrev pub delete : String → List (String × A) → List (String × A)
  delete key = keep (λ e. not (str_eq e.0 key))

abbrev three_minutes : ℕ
three_minutes = 180

abbrev pub two_minutes : ℕ
two_minutes = 120

-- `keep`: the ceremonies that ran out go first.
unfoldable pub keep_ceremony : ℕ → String → Ceremony → Auth → Auth
keep_ceremony now id c a =
    let live = keep (λ e. not (ltb e.1.expires now)) a.inflight in
    record a { inflight = (id, record c { expires = now + three_minutes }) ∷ delete id live }

abbrev pub in_time : ℕ → Option Ceremony → Option Ceremony
in_time now none = none
in_time now (some c) = if ltb now c.expires then some c else none

-- `take`: the ceremony leaves the map, in time or not.
unfoldable pub take_ceremony : ℕ → String → Auth → Option Ceremony × Auth
take_ceremony now id a =
    (in_time now (get id a.inflight), record a { inflight = delete id a.inflight })

-- Whose account the passkey is for: `some (some u)` an account there is, `some none` a new one.
abbrev pub invited : Db → Option (String × Option String) → Answer (Option User × String)
invited db none = fails "the code is not live"
invited db (some (role, none)) = ok (none, role)
invited db (some (role, some id)) = elim (user_by_id id db) [
  | none ↦ fails "no such user"
  | some u ↦ ok (some u, role)
]

-- The `switch` of BeginRegistration.
unfoldable pub account_for : ℕ → String → Option User → Db → Answer (Option User × String)
account_for now invite (some u) db =
    if str_eq invite ""
    then ok (some u, "admin")
    else if user_count db == 0
    then ok (none, "admin")
    else invited db (peek_invite now invite db)
account_for now invite none db =
    if user_count db == 0
    then ok (none, "admin")
    else if not (str_eq invite "")
    then invited db (peek_invite now invite db)
    else fails "registration is closed; ask an admin for an invite"

abbrev created : Option User × Db → Answer User × Db
created (none, db) = (fails "the account was refused", db)
created (some u, db) = (ok u, db)

abbrev is_taken : String → Db → Bool
is_taken name db = elim (user_by_name name db) [ none ↦ false | some u ↦ true ]

-- An account with the trimmed name, unless it is empty or taken.
unfoldable pub new_account : ℕ → String → String → String → Db → Answer User × Db
new_account now name role user_id db =
    let trimmed = trim_space name in
    if str_eq trimmed ""
    then (fails "an account needs a name", db)
    else if is_taken trimmed db
    then (fails "that name is taken", db)
    else created (create_user now user_id trimmed role db)

abbrev pub account : ℕ → String → String → Answer (Option User × String) → Db → Answer User × Db
account now name user_id (fails e) db = (fails e, db)
account now name user_id (ok (some u, role)) db = (ok u, db)
account now name user_id (ok (none, role)) db = new_account now name role user_id db

abbrev pub role_of : Answer (Option User × String) → String
role_of (fails e) = ""
role_of (ok (u, role)) = role

abbrev pub begun : ℕ → String → String → String → Bool → Answer User → Auth → Answer String × Auth
begun now invite role id wa_ok (fails e) a = (fails e, a)
begun now invite role id false (ok u) a =
    (fails "webauthn", record a { db = prune_empty_users now a.db })
begun now invite role id true (ok u) a = (
  ok id,
  keep_ceremony now id (record { user = some u; role = role; invite = invite; expires = 0 }) a,
)

-- `user_id` and `id` are the ids drawn, of an account and of the ceremony.
unfoldable pub begin_registration :
    ℕ → String → String → Option User → String → String → Bool → Auth → Answer String × Auth
unfolding account_for new_account
begin_registration now name invite current user_id id wa_ok a =
    let db = prune_empty_users now a.db in
    let whose = account_for now invite current db in
    let (u, db') = account now name user_id whose db in
    begun now invite (role_of whose) id wa_ok u (record a { db = db' })

abbrev pub reload : String → Db → Answer User
reload id db = elim (user_by_id id db) [ none ↦ fails "no such user" | some u ↦ ok u ]

abbrev pub spent : String → Option (String × Option String) × Db → Auth → Answer User × Auth
spent user_id (none, db) a = (fails "the code is not live", record a { db = db })
spent user_id (some r, db) a = (reload user_id db, record a { db = db })

-- The invite is spent once the passkey is saved.
abbrev pub spend_invite : ℕ → String → String → Auth → Answer User × Auth
spend_invite now invite user_id a =
    if str_eq invite ""
    then (reload user_id a.db, a)
    else spent user_id (use_invite now invite a.db) a

abbrev pub saved : ℕ → String → String → Bool × Db → Auth → Answer User × Auth
saved now invite user_id (false, db) a = (fails "the passkey was refused", record a { db = db })
saved now invite user_id (true, db) a = spend_invite now invite user_id (record a { db = db })

abbrev pub proved : ℕ → String → User → Option String → Auth → Answer User × Auth
proved now invite u none a = (fails "webauthn", record a { db = prune_empty_users now a.db })
proved now invite u (some cred) a = saved now invite u.id (add_credential u.id cred a.db) a

-- A sign-in's ceremony has no account, and the source reads it through a nil pointer.
abbrev pub finish_with : ℕ → Option String → Option Ceremony × Auth → Answer User × Auth
finish_with now cred (none, a) = (fails "the registration timed out; start again", a)
finish_with now cred (some c, a) = elim c.user [
  | none ↦ (fails "panic: the ceremony has no account", a)
  | some u ↦ proved now c.invite u cred a
]

-- `cred`: the passkey WebAuthn made of the browser's answer; none is its error.
unfoldable pub finish_registration : ℕ → String → Option String → Auth → Answer User × Auth
unfolding take_ceremony
finish_registration now id cred a = finish_with now cred (take_ceremony now id a)

unfoldable pub begin_login : ℕ → String → Bool → Auth → Answer String × Auth
begin_login now id false a = (fails "webauthn", a)
begin_login now id true a =
    (ok id, keep_ceremony now id (record { user = none; role = ""; invite = ""; expires = 0 }) a)

abbrev pub signed_in : Option String → Option Ceremony × Auth → Answer User × Auth
signed_in cred (none, a) = (fails "the sign-in timed out; try again", a)
signed_in none (some c, a) = (fails "webauthn", a)
signed_in (some cred) (some c, a) = elim (user_by_credential cred a.db) [
  | none ↦ (fails "unknown passkey", a)
  | some u ↦ (ok u, a)
]

unfoldable pub finish_login : ℕ → String → Option String → Auth → Answer User × Auth
unfolding take_ceremony
finish_login now id cred a = signed_in cred (take_ceremony now id a)

unfoldable pub grant_cli : ℕ → String → User → Auth → Auth
grant_cli now code u a =
    let live = keep (λ e. not (ltb e.1.expires now)) a.grants in
    record a {
      grants = (code, record { user_id = u.id; expires = now + two_minutes }) ∷ delete code live;
    }

abbrev pub opened : User → Bool × Db → Auth → Answer User × Auth
opened u (false, db) a = (fails "the session was refused", a)
opened u (true, db) a = (ok u, record a { db = db })

abbrev pub session_for : (String → String) → ℕ → String → Option User → Auth → Answer User × Auth
session_for hash_token now tok none a = (fails "no such user", a)
session_for hash_token now tok (some u) a = opened u (new_session hash_token now tok u.id a.db) a

abbrev pub redeemed : (String → String) → ℕ → String → Option Grant → Auth → Answer User × Auth
redeemed hash_token now tok none a = (fails "the code is not live; run login again", a)
redeemed hash_token now tok (some g) a =
    if ltb g.expires now
    then (fails "the code is not live; run login again", a)
    else session_for hash_token now tok (user_by_id g.user_id a.db) a

-- `tok`: the token drawn for the session.
unfoldable pub redeem_cli : (String → String) → ℕ → String → String → Auth → Answer User × Auth
redeem_cli hash_token now code tok a =
    redeemed hash_token now tok (get code a.grants) (record a { grants = delete code a.grants })
