-- ===== src/Server/Roles.antt =====
-- hub/internal/server/auth.go: what the changes of roles and the deletions leave of the table of users.
use homedash.Prelude.{
  ℕ, suc, ◌≤◌, ◌<◌, String, Bool, true, false, not, ◌&&◌, ◌||◌, Option, none, some, List, [], ◌∷◌,
  str_eq, str_eq_iff, if◌then◌else◌, leb, any, keep, map, ◌≡◌, refl, arith, if-either, Bool-cases,
  inl, inr, sym, subst,
}
use homedash.Prelude.Text.{trim_space, is_empty}
use homedash.Accounts.{Db, User, set_role, set_role_of, is_role, delete_user}
use homedash.Accounts.Invites.{new_invite, delete_invite}
use homedash.Accounts.Tokens.{new_token, delete_token}
use homedash.Server.{
  Caller, Call, put_role, remove_user, mint_invite, remove_invite, mint_token, remove_token, Status,
  bad_request, is_admin, admins, known_role, of_statement, of_minted, handle_role, handle_delete,
  handle_invite, handle_token, handle,
}

abbrev pub distinct_users : List User → Bool
distinct_users [] = true
distinct_users (u ∷ us) = not (any (λ v. str_eq v.name u.name) us) && distinct_users us

abbrev pub has_admin : List User → Bool
has_admin = any is_admin

-- Deletion by another admin.
has_admin-keep :
    (caller name : String) (us : List User)
    → any (λ u. str_eq u.name caller && is_admin u) us ≡ true
    → str_eq caller name ≡ false
    → has_admin (keep (λ u. not (str_eq u.name name)) us) ≡ true
has_admin-keep caller name [] h n = h
has_admin-keep caller name (u ∷ us) h n =
    let i = has_admin-keep caller name us in
    let a = str_eq_iff u.name caller in
    let b = str_eq_iff u.name name in let c = str_eq_iff caller name in ground arith

-- A change of role, counted.
admins-other :
    (name role : String) (us : List User)
    → any (λ u. str_eq u.name name) us ≡ false
    → admins (map (set_role_of name role) us) ≡ admins us
unfolding admins
admins-other name role [] h = refl
admins-other name role (u ∷ us) h = let i = admins-other name role us in ground arith

admins-map :
    (name role : String) (us : List User)
    → distinct_users us ≡ true
    → admins us ≤ suc (admins (map (set_role_of name role) us))
unfolding admins
admins-map name role [] d = omega arith
admins-map name role (u ∷ us) d =
    let i = admins-map name role us in
    let o = admins-other name role us in let a = str_eq_iff u.name name in ground arith

admins-viewer :
    (name role : String) (us : List User)
    → any (λ u. str_eq u.name name && is_admin u) us ≡ false
    → admins us ≤ admins (map (set_role_of name role) us)
unfolding admins
admins-viewer name role [] d = omega arith
admins-viewer name role (u ∷ us) d = let i = admins-viewer name role us in ground arith

no_less : ¬ (0 < 0)
no_less h = omega arith

admins-has : (us : List User) → 0 < admins us → has_admin us ≡ true
unfolding admins
admins-has [] h = absurd (no_less h)
admins-has (u ∷ us) h = let i = admins-has us in ground arith

has-admins : (us : List User) → has_admin us ≡ true → 0 < admins us
unfolding admins
has-admins [] h = cc
has-admins (u ∷ us) h = let i = has-admins us in ground arith

any-and : (p : User → Bool) (b : Bool) (us : List User) → any (λ u. p u && b) us ≡ (any p us && b)
any-and p b [] = refl
any-and p b (u ∷ us) = let i = any-and p b us in ground arith

-- What the calls leave of the table of users.
abbrev pub Sound : List User → Type 0
Sound us = (distinct_users us ≡ true) × (has_admin us ≡ true)

any-map :
    (n name role : String) (us : List User)
    → any (λ v. str_eq v.name n) (map (set_role_of name role) us) ≡ any (λ v. str_eq v.name n) us
any-map n name role [] = refl
any-map n name role (u ∷ us) = let i = any-map n name role us in ground arith

distinct-map :
    (name role : String) (us : List User)
    → distinct_users us ≡ true
    → distinct_users (map (set_role_of name role) us) ≡ true
distinct-map name role [] d = d
distinct-map name role (u ∷ us) d =
    let i = distinct-map name role us in let a = any-map u.name name role us in ground arith

any-keep :
    (n name : String) (us : List User)
    → any (λ v. str_eq v.name n) us ≡ false
    → any (λ v. str_eq v.name n) (keep (λ u. not (str_eq u.name name)) us) ≡ false
any-keep n name [] h = h
any-keep n name (u ∷ us) h = let i = any-keep n name us in ground arith

distinct-keep :
    (name : String) (us : List User)
    → distinct_users us ≡ true
    → distinct_users (keep (λ u. not (str_eq u.name name)) us) ≡ true
distinct-keep name [] d = d
distinct-keep name (u ∷ us) d =
    let i = distinct-keep name us in let a = any-keep u.name name us in ground arith

raised :
    (name : String) (u : User)
    → is_admin (set_role_of name "admin" u) ≡ (str_eq u.name name || is_admin u)
raised name u = elim (Bool-cases (str_eq u.name name)) [ inl e ↦ rw (e) refl | inr e ↦ rw (e) refl ]

-- To be an admin is to be raised to one, where the new role is no viewer's.
has_admin-raise :
    (name : String) (us : List User)
    → has_admin us ≡ true
    → has_admin (map (set_role_of name "admin") us) ≡ true
has_admin-raise name [] h = h
has_admin-raise name (u ∷ us) h =
    let i = has_admin-raise name us in let r = raised name u in ground arith

-- A viewer's role is given while it is no admin's, or while there are two.
has_admin-lower :
    (name : String) (us : List User)
    → distinct_users us ≡ true
    → has_admin us ≡ true
    → any (λ u. str_eq u.name name && is_admin u && leb (admins us) 1) us ≡ false
    → has_admin (map (set_role_of name "viewer") us) ≡ true
has_admin-lower name us d h n =
    let two = leb (admins us) 1 in
    let a = any-and (λ u. str_eq u.name name && is_admin u) two us in
    let after = map (set_role_of name "viewer") us in
    let m = admins-map name "viewer" us d in
    let p = has-admins us h in
    admins-has after (elim (Bool-cases (any (λ u. str_eq u.name name && is_admin u) us)) [
      | inl e ↦ let t : leb (admins us) 1 ≡ false = ground arith in ground arith
      | inr e ↦ let v = admins-viewer name "viewer" us e in omega arith
    ])

set_role-users :
    (name role : String) (db : Db)
    → is_role role ≡ true
    → set_role name role db ≡ (true, record db { users = map (set_role_of name role) db.users })
unfolding set_role
set_role-users name role db h = ground arith

viewer-Sound :
    (name : String) (db : Db) → Sound db.users → Sound (handle_role name (some "viewer") db).0.users
unfolding handle_role of_statement
viewer-Sound name db (d, h) =
    elim (Bool-cases
      (any (λ u. str_eq u.name name && is_admin u && leb (admins db.users) 1) db.users)) [
        | inl b ↦ rw (b) (d, h)
        | inr b ↦
            rw (b, set_role-users name "viewer" db refl)
              (distinct-map name "viewer" db.users d, has_admin-lower name db.users d h b)
      ]

role-Sound :
    (name role : String) (db : Db)
    → Sound db.users
    → Sound (handle_role name (some role) db).0.users
unfolding handle_role of_statement
role-Sound name role db (d, h) = elim (Bool-cases (str_eq role "admin")) [
  | inl e ↦
      let q = (str_eq_iff role "admin").0 e in
      subst (λ r. Sound (handle_role name (some r) db).0.users) (sym q)
        (rw (set_role-users name "admin" db refl)
          (distinct-map name "admin" db.users d, has_admin-raise name db.users h))
  | inr e ↦ elim (Bool-cases (str_eq role "viewer")) [
    | inl k ↦
        let q = (str_eq_iff role "viewer").0 k in
        subst (λ r. Sound (handle_role name (some r) db).0.users) (sym q)
          (viewer-Sound name db (d, h))
    | inr k ↦ rw (e, k) (d, h)
  ]
]

invite-users :
    (now : ℕ) (code role : String) (id : Option String) (db : Db)
    → (of_statement (new_invite now code role id db)).0.users ≡ db.users
unfolding of_statement new_invite
invite-users now code role id db = ground arith

token-users :
    (hash : String → String) (tok name role : String) (db : Db)
    → (of_minted (new_token hash tok name role db)).0.users ≡ db.users
unfolding of_minted new_token
token-users hash tok name role db = ground arith

-- The calls on invites and tokens leave the accounts.
pub handle-Sound :
    (hash : String → String) (now : ℕ) (u : Caller) (c : Call) (db : Db)
    → any (λ v. str_eq v.name u.name && is_admin v) db.users ≡ true
    → Sound db.users
    → Sound (handle hash now (some u) c db).0.users
unfolding handle handle_delete handle_invite handle_token delete_user delete_invite delete_token
handle-Sound hash now u (put_role name none) db k s = s
handle-Sound hash now u (put_role name (some role)) db k s = role-Sound name role db s
handle-Sound hash now u (remove_user name) db k (d, h) = elim (Bool-cases (str_eq u.name name)) [
  | inl e ↦ rw (e) (d, h)
  | inr e ↦ rw (e) (distinct-keep name db.users d, has_admin-keep u.name name db.users k e)
]
handle-Sound hash now u (mint_invite role false code) db k s =
    rw (invite-users now code (known_role role) none db) s
handle-Sound hash now u (mint_invite role true code) db k s =
    rw (invite-users now code (known_role u.role) u.id db) s
handle-Sound hash now u (remove_invite code) db k s = s
handle-Sound hash now u (mint_token none tok) db k s = s
handle-Sound hash now u (mint_token (some (name, role)) tok) db k s =
    if-either (λ (r : Db × Status). Sound r.0.users) (is_empty (trim_space name)) (db, bad_request)
      (of_minted (
        new_token hash tok (trim_space name) (if str_eq role "admin" then "admin" else "viewer")
          db))
      s
      (rw
        (token-users hash tok (trim_space name) (if str_eq role "admin" then "admin" else "viewer")
          db)
        s)
handle-Sound hash now u (remove_token name) db k s = s
