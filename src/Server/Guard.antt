-- ===== src/Server/Guard.antt =====
-- The gate of hub/internal/server/auth.go: no call that changes accounts goes on for anyone but an admin.
use homedash.Prelude.{
  ℕ, String, Bool, true, false, not, ◌&&◌, Option, none, some, str_eq, str_eq_iff, if◌then◌else◌,
  ◌≡◌, refl, arith, Bool-cases, Option-cases, inl, inr, ap,
}
use homedash.Prelude.Text.{has_prefix, cut_prefix}
use homedash.Accounts.{Db}
use homedash.Server.{
  Caller, Call, put_role, remove_user, mint_invite, remove_invite, mint_token, remove_token, Sender,
  Status, not_signed_in, not_admin, passes, forbidden, current_user, viewer_may_post, is_open,
  judge, guard, method_of, path_of, put_text, request_of, answer, handle, serve,
}

-- What a call comes to for whoever asks.
abbrev pub by_role : (String → String) → ℕ → Call → Db → Option Caller → Db × Status
by_role hash now c db none = (db, not_signed_in)
by_role hash now c db (some u) =
    if str_eq u.role "admin" then handle hash now (some u) c db else (db, not_admin)

-- A test tells two texts apart.
apart_by :
    (test : String → Bool) (p q : String) → test p ≡ true → test q ≡ false → str_eq p q ≡ false
apart_by test p q a b = elim (Bool-cases (str_eq p q)) [
  | inl e ↦ let k = ap test ((str_eq_iff p q).0 e) in cc
  | inr e ↦ e
]

-- A path that neither the gate's list of open paths nor the viewers' has.
record IsAdminPath (db : Db) (p : String) : Type 0 where
  pub closed : is_open db p ≡ false
  pub no_viewer : viewer_may_post p ≡ false

module _ (test : String → Bool) (db : Db) (p : String) (h : test p ≡ true)
    (api : has_prefix p "/api/" ≡ true) (auth : has_prefix p "/api/auth/" ≡ false)
    (v1 : has_prefix p "/v1/" ≡ false) (front : has_prefix p "/~" ≡ false) where
  admin_path :
      test "/api/health" ≡ false
      → test "/api/backup/restore" ≡ false
      → test "/api/chat" ≡ false
      → test "/api/generate" ≡ false
      → test "/api/embed" ≡ false
      → test "/api/embeddings" ≡ false
      → test "/api/show" ≡ false
      → IsAdminPath db p
  unfolding is_open viewer_may_post
  admin_path a b c d e f g =
      let a2 = apart_by test p "/api/health" h a in
      let b2 = apart_by test p "/api/backup/restore" h b in
      let c2 = apart_by test p "/api/chat" h c in
      let d2 = apart_by test p "/api/generate" h d in
      let e2 = apart_by test p "/api/embed" h e in
      let f2 = apart_by test p "/api/embeddings" h f in
      let g2 = apart_by test p "/api/show" h g in
      record {
        closed = rw (a2, b2, api, auth) refl;
        no_viewer = rw (c2, d2, e2, f2, g2, v1, front) refl;
      }

abbrev under : String → String → Bool
under pre p = has_prefix p pre

call-IsAdminPath : (db : Db) (c : Call) → IsAdminPath db (path_of c)
unfolding path_of put_text has_prefix cut_prefix
call-IsAdminPath db (put_role name role) =
    admin_path (under "/api/users/") db (path_of (put_role name role)) refl refl refl refl refl refl
      refl refl refl refl refl refl
call-IsAdminPath db (remove_user name) =
    admin_path (under "/api/users/") db (path_of (remove_user name)) refl refl refl refl refl refl
      refl refl refl refl refl refl
call-IsAdminPath db (mint_invite role self code) =
    admin_path (under "/api/invites") db "/api/invites" refl refl refl refl refl refl refl refl refl
      refl refl refl
call-IsAdminPath db (remove_invite code) =
    admin_path (under "/api/invites/") db (path_of (remove_invite code)) refl refl refl refl refl
      refl refl refl refl refl refl refl
call-IsAdminPath db (mint_token body tok) =
    admin_path (under "/api/tokens") db "/api/tokens" refl refl refl refl refl refl refl refl refl
      refl refl refl
call-IsAdminPath db (remove_token name) =
    admin_path (under "/api/tokens/") db (path_of (remove_token name)) refl refl refl refl refl refl
      refl refl refl refl refl refl

changes :
    (c : Call) → (not (str_eq (method_of c) "GET") && not (str_eq (method_of c) "HEAD")) ≡ true
unfolding method_of
changes (put_role name role) = refl
changes (remove_user name) = refl
changes (mint_invite role self code) = refl
changes (remove_invite code) = refl
changes (mint_token body tok) = refl
changes (remove_token name) = refl

module _ (hash : String → String) (now : ℕ) (s : Sender) (c : Call) (db : Db) where
  abbrev asker : Option Caller
  asker = current_user hash now (request_of s c) db

  judged : guard hash now (request_of s c) db ≡ judge (request_of s c) asker
  unfolding guard request_of
  judged = let k = (call-IsAdminPath db c).closed in rw (k) refl

  judge-admin :
      (u : Caller)
      → str_eq u.role "admin" ≡ true
      → judge (request_of s c) (some u) ≡ passes (some u)
  unfolding judge
  judge-admin u h = rw (h) refl

  judge-other :
      (u : Caller) → str_eq u.role "admin" ≡ false → judge (request_of s c) (some u) ≡ forbidden
  unfolding judge request_of
  judge-other u h = let k = (call-IsAdminPath db c).no_viewer in let m = changes c in ground arith

-- A call that changes accounts, invites or tokens, whatever the names and codes in its path, reaches
-- its handler for an admin alone: without a caller, and for a caller of another role, it changes
-- nothing and says so.
pub serve-by_role :
    (hash : String → String) (now : ℕ) (s : Sender) (c : Call) (db : Db)
    → serve hash now s c db ≡ by_role hash now c db (current_user hash now (request_of s c) db)
unfolding serve answer judge
serve-by_role hash now s c db = elim (Option-cases (current_user hash now (request_of s c) db)) [
  | inl e ↦ rw (judged hash now s c db, e) refl
  | inr (u, e) ↦ elim (Bool-cases (str_eq u.role "admin")) [
    | inl h ↦ rw (judged hash now s c db, e, judge-admin hash now s c db u h, h) refl
    | inr h ↦ rw (judged hash now s c db, e, judge-other hash now s c db u h, h) refl
  ]
]
