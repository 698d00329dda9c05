-- ===== src/Server/Admins.antt =====
-- hub/internal/server/auth.go: an admin stays, whatever persons ask, and a script can remove the last.
use homedash.Prelude.{
  ℕ, String, Bool, true, false, ◌&&◌, Option, none, some, List, [], ◌∷◌, str_eq, str_eq_iff,
  if◌then◌else◌, ltb, any, ◌≡◌, refl, arith, if-none-some, Bool-cases, inl, inr, ap, sym, ◌∙◌,
  subst,
}
use mathlib.Core.Option.{some-injective}
use homedash.Prelude.Text.{has_prefix, is_empty}
use homedash.Accounts.{
  Db, User, Session, delete_user, session_user, user_by_id, find_user, find_session,
}
use homedash.Accounts.Tokens.{token_role}
use homedash.Server.{
  Caller, Call, remove_user, Sender, Status, bearer, script, session_token, person, or_else,
  current_user, is_open, is_admin, handle_delete, handle, request_of, serve,
}
use homedash.Server.Roles.{distinct_users, has_admin, Sound, handle-Sound}
use homedash.Server.Guard.{by_role, serve-by_role}

-- The account behind a person's request.
abbrev same_user : User → User → Bool
same_user u v = str_eq v.name u.name && str_eq v.role u.role

abbrev is_same : User → Option User → Bool
is_same u none = false
is_same u (some v) = same_user u v

same_refl : (u : User) → same_user u u ≡ true
same_refl u =
    let a = (str_eq_iff u.name u.name).1 refl in
    let b = (str_eq_iff u.role u.role).1 refl in rw (a, b) refl

found-step :
    (b : Bool) (v u : User) (o : Option User) (us : List User)
    → (if b then some v else o) ≡ some u
    → (o ≡ some u → any (same_user u) us ≡ true)
    → any (same_user u) (v ∷ us) ≡ true
found-step true v u o us h k = let e = ap (is_same u) h ∙ same_refl u in ground arith
found-step false v u o us h k = let e = k h in ground arith

find_user-some :
    (test : User → Bool) (us : List User) (u : User)
    → find_user test us ≡ some u
    → any (same_user u) us ≡ true
find_user-some test [] u h = ap (is_same u) h ∙ same_refl u
find_user-some test (v ∷ us) u h =
    found-step (test v) v u (find_user test us) us h (find_user-some test us u)

person-some :
    (o : Option User) (us : List User) (c : Caller)
    → ((u : User) → o ≡ some u → any (same_user u) us ≡ true)
    → person o ≡ some c
    → any (λ v. str_eq v.name c.name && str_eq v.role c.role) us ≡ true
unfolding person
person-some none us c k h = cc
person-some (some u) us c k h =
    subst (λ (d : Caller). any (λ v. str_eq v.name d.name && str_eq v.role d.role) us ≡ true)
      (some-injective (record { id = some u.id; name = u.name; role = u.role }) c h) (k u refl)

owner-some :
    (o : Option Session) (db : Db) (u : User)
    → (elim o [ none ↦ none | some s ↦ user_by_id s.user_id db ]) ≡ some u
    → any (same_user u) db.users ≡ true
unfolding user_by_id
owner-some none db u h = cc
owner-some (some s) db u h = find_user-some (λ v. str_eq v.id s.user_id) db.users u h

session-some :
    (hash : String → String) (now : ℕ) (tok : String) (db : Db) (u : User)
    → session_user hash now tok db ≡ some u
    → any (same_user u) db.users ≡ true
unfolding session_user user_by_id
session-some hash now tok db u h =
    owner-some (find_session (λ s. str_eq s.token (hash tok) && ltb now s.expires) db.sessions) db u
      h

-- A request with no script's token in its header.
abbrev pub IsPersons : Sender → Call → Type 0
IsPersons s c = has_prefix (bearer (request_of s c)) "hd_" ≡ false

only_first :
    (o p : Option Caller) (b : Bool) (u : Caller)
    → b ≡ false
    → or_else o (if b then p else none) ≡ some u
    → o ≡ some u
unfolding or_else
only_first none p true u e h = cc
only_first none p false u e h = h
only_first (some v) p b u e h = h

-- The caller behind such a request has a row in the table.
caller-known :
    (hash : String → String) (now : ℕ) (s : Sender) (c : Call) (db : Db) (u : Caller)
    → IsPersons s c
    → current_user hash now (request_of s c) db ≡ some u
    → any (λ v. str_eq v.name u.name && str_eq v.role u.role) db.users ≡ true
unfolding current_user
caller-known hash now s c db u p h =
    let r = request_of s c in
    let o = session_user hash now (session_token r) db in
    let first =
      only_first (if is_empty (session_token r) then none else person o)
        (script (token_role hash (bearer r) db)) (has_prefix (bearer r) "hd_") u p h in
    let q = (if-none-some (is_empty (session_token r)) (person o) u first).1 in
    person-some o db.users u (λ v e. session-some hash now (session_token r) db v e) q

module _ (hash : String → String) where
  -- Calls one after the other, each at its time.
  unfoldable pub run : List (ℕ × Sender × Call) → Db → Db
  run [] db = db
  run ((now, s, c) ∷ calls) db = run calls (serve hash now s c db).0

  admin_row :
      (u : Caller) (us : List User)
      → str_eq u.role "admin" ≡ true
      → any (λ v. str_eq v.name u.name && str_eq v.role u.role) us ≡ true
      → any (λ v. str_eq v.name u.name && is_admin v) us ≡ true
  admin_row u us e h =
      subst (λ r. any (λ v. str_eq v.name u.name && str_eq v.role r) us ≡ true)
        ((str_eq_iff u.role "admin").0 e) h

  by_role-Sound :
      (now : ℕ) (c : Call) (db : Db) (o : Option Caller)
      → ((u : Caller)
          → o ≡ some u
          → any (λ v. str_eq v.name u.name && str_eq v.role u.role) db.users ≡ true)
      → Sound db.users
      → Sound (by_role hash now c db o).0.users
  by_role-Sound now c db none k h = h
  by_role-Sound now c db (some u) k h = elim (Bool-cases (str_eq u.role "admin")) [
    | inl e ↦ rw (e) (handle-Sound hash now u c db (admin_row u db.users e (k u refl)) h)
    | inr e ↦ rw (e) h
  ]

  serve-Sound :
      (now : ℕ) (s : Sender) (c : Call) (db : Db)
      → IsPersons s c
      → Sound db.users
      → Sound (serve hash now s c db).0.users
  serve-Sound now s c db p h =
      subst (λ (r : Db × Status). Sound r.0.users) (sym (serve-by_role hash now s c db))
        (by_role-Sound now c db (current_user hash now (request_of s c) db)
          (λ u e. caller-known hash now s c db u p e) h)

abbrev pub AllPersons : List (ℕ × Sender × Call) → Type 0
AllPersons [] = Unit
AllPersons ((now, s, c) ∷ calls) = IsPersons s c × AllPersons calls

-- Where names are distinct and there is an admin, whatever persons ask of accounts, invites and tokens,
-- admins or not, names stay distinct and there is an admin. A request with a script's token is none
-- of a person's.
pub run-Sound :
    (hash : String → String) (calls : List (ℕ × Sender × Call)) (db : Db)
    → AllPersons calls
    → (distinct_users db.users ≡ true) × (has_admin db.users ≡ true)
    → (distinct_users (run hash calls db).users ≡ true)
      × (has_admin (run hash calls db).users ≡ true)
unfolding run
run-Sound hash [] db p h = h
run-Sound hash ((now, s, c) ∷ calls) db (p, ps) h =
    run-Sound hash calls (serve hash now s c db).0 ps (serve-Sound hash now s c db p h)

removed :
    (hash : String → String) (now : ℕ) (db : Db) (u : User) (c : Caller)
    → db.users ≡ u ∷ []
    → str_eq c.name u.name ≡ false
    → (handle hash now (some c) (remove_user u.name) db).0.users ≡ []
unfolding handle handle_delete delete_user
removed hash now db u c only other =
    let a = (str_eq_iff u.name u.name).1 refl in rw (other, only, a) refl

-- The only account of the hub is removed by a call with the token of an admin that does not go by the
-- account's name, and then the hub takes an export for its accounts from anyone.
pub script_removes_last :
    (hash : String → String) (now : ℕ) (s : Sender) (db : Db) (u : User) (c : Caller)
    → db.users ≡ u ∷ []
    → current_user hash now (request_of s (remove_user u.name)) db ≡ some c
    → c.role ≡ "admin"
    → str_eq c.name u.name ≡ false
    → ((serve hash now s (remove_user u.name) db).0.users ≡ [])
      × (is_open (serve hash now s (remove_user u.name) db).0 "/api/backup/restore" ≡ true)
unfolding is_open has_prefix
script_removes_last hash now s db u c only asks admin other =
    let e = serve-by_role hash now s (remove_user u.name) db in
    let a : str_eq c.role "admin" ≡ true = (str_eq_iff c.role "admin").1 admin in
    let gone : (serve hash now s (remove_user u.name) db).0.users ≡ [] =
      rw (e, asks) (rw (a) (removed hash now db u c only other)) in
    (gone, rw (gone) refl)
