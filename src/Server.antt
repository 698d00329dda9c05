-- ===== src/Server.antt =====
-- hub/internal/server/auth.go: who is asking, the sign-in gate, and the handlers of accounts, invites
-- and tokens, over the tables of Accounts. A request is read already: its cookie and its header are
-- texts, empty where it has none, and what its body decodes to is an argument, as are the codes that
-- the hub draws.
pub mod Guard
pub mod Roles
pub mod Admins
pub mod Health
pub mod Report
pub mod Examples
use Prim.Native.String
use homedash.Prelude.{
  ℕ, suc, ◌+◌, String, Bool, true, false, not, ◌&&◌, ◌||◌, Option, none, some, List, [], ◌∷◌, leb,
  ◌==◌, str_eq, if◌then◌else◌, any, length,
}
use homedash.Prelude.Text.{trim_space, is_empty, has_prefix, cut_prefix}
use homedash.Accounts.{Db, User, set_role, delete_user, session_user}
use homedash.Accounts.Invites.{new_invite, delete_invite}
use homedash.Accounts.Tokens.{
  token_role, new_token, delete_token, Minted, minted, token_exists, refused_by_table,
}

pub record Request : Type 0 where
  pub method : String
  pub path : String
  pub cookie : String  -- homedash_session
  pub authorization : String

-- The person or the token that asks: a token has no id.
pub record Caller : Type 0 where
  pub id : Option String
  pub name : String
  pub role : String

unfoldable pub after_bearer : Option String → String
after_bearer none = ""
after_bearer (some t) = t

unfoldable pub bearer : Request → String
unfolding after_bearer
bearer r = after_bearer (cut_prefix r.authorization "Bearer ")

-- `sessionToken`.
unfoldable pub session_token : Request → String
unfolding bearer
session_token r =
    if not (is_empty r.cookie)
    then r.cookie
    else if not (is_empty (bearer r)) && not (has_prefix (bearer r) "hd_")
    then bearer r
    else ""

-- `"token:" + name`.
put_text : String → String → String
put_text String.[] t = t
put_text (String.◌∷◌ c s) t = String.◌∷◌ c (put_text s t)

unfoldable pub token_name : String → String
unfolding put_text
token_name name = put_text "token:" name

unfoldable pub person : Option User → Option Caller
person none = none
person (some u) = some (record { id = some u.id; name = u.name; role = u.role })

unfoldable pub script : Option (String × String) → Option Caller
unfolding token_name
script none = none
script (some (name, role)) = some (record { id = none; name = token_name name; role = role })

unfoldable pub or_else : Option Caller → Option Caller → Option Caller
or_else none o = o
or_else (some c) o = some c

-- `currentUser`.
unfoldable pub current_user : (String → String) → ℕ → Request → Db → Option Caller
unfolding session_token bearer person script or_else
current_user hash now r db =
    or_else
      (if is_empty (session_token r)
        then none
        else person (session_user hash now (session_token r) db))
      (if has_prefix (bearer r) "hd_" then script (token_role hash (bearer r) db) else none)

unfoldable pub viewer_may_post : String → Bool
viewer_may_post p =
    str_eq p "/api/chat"
    || str_eq p "/api/generate"
    || str_eq p "/api/embed"
    || str_eq p "/api/embeddings"
    || str_eq p "/api/show"
    || has_prefix p "/v1/"
    || has_prefix p "/~"

-- The paths that need no sign-in; a hub without an account takes an export.
unfoldable pub is_open : Db → String → Bool
is_open db p =
    str_eq p "/api/health"
    || has_prefix p "/api/auth/"
    || (not (has_prefix p "/api/") && not (has_prefix p "/v1/") && not (has_prefix p "/~"))
    || (str_eq p "/api/backup/restore" && length db.users == 0)

-- What the gate answers: the request goes on, with the caller that it found, or it ends here.
pub data Verdict : Type 0 where
  passes : Option Caller → Verdict
  unauthorized : Verdict
  forbidden : Verdict

judge : Request → Option Caller → Verdict
unfolding viewer_may_post
judge r none = unauthorized
judge r (some u) =
    if not (str_eq u.role "admin")
      && not (str_eq r.method "GET")
      && not (str_eq r.method "HEAD")
      && not (viewer_may_post r.path)
    then forbidden
    else passes (some u)

-- `guard`.
unfoldable pub guard : (String → String) → ℕ → Request → Db → Verdict
unfolding is_open judge current_user
guard hash now r db =
    if is_open db r.path then passes none else judge r (current_user hash now r db)

-- The calls that change accounts, invites and tokens, with what their bodies decode to: none where a
-- body that must decode does not.
pub data Call : Type 0 where
  put_role : String → Option String → Call
  remove_user : String → Call
  mint_invite : String → Bool → String → Call
  remove_invite : String → Call
  mint_token : Option (String × String) → String → Call
  remove_token : String → Call

unfoldable pub method_of : Call → String
method_of (put_role name role) = "PUT"
method_of (remove_user name) = "DELETE"
method_of (mint_invite role self code) = "POST"
method_of (remove_invite code) = "DELETE"
method_of (mint_token body tok) = "POST"
method_of (remove_token name) = "DELETE"

-- The routes of New, in server.go.
unfoldable pub path_of : Call → String
unfolding put_text
path_of (put_role name role) = put_text "/api/users/" (put_text name "/role")
path_of (remove_user name) = put_text "/api/users/" name
path_of (mint_invite role self code) = "/api/invites"
path_of (remove_invite code) = put_text "/api/invites/" code
path_of (mint_token body tok) = "/api/tokens"
path_of (remove_token name) = put_text "/api/tokens/" name

pub data Status : Type 0 where
  done : Status
  bad_request : Status
  conflict : Status
  unavailable : Status
  not_signed_in : Status
  not_admin : Status

abbrev pub is_admin : User → Bool
is_admin u = str_eq u.role "admin"

unfoldable pub admins : List User → ℕ
admins [] = 0
admins (u ∷ us) = let rest = admins us in if is_admin u then suc rest else rest

of_statement : Bool × Db → Db × Status
of_statement (true, db) = (db, done)
of_statement (false, db) = (db, unavailable)

-- `setRole`.
unfoldable pub handle_role : String → Option String → Db → Db × Status
unfolding admins of_statement
handle_role name none db = (db, bad_request)
handle_role name (some role) db =
    if not (str_eq role "admin") && not (str_eq role "viewer")
    then (db, bad_request)
    else if str_eq role "viewer"
        && any (λ u. str_eq u.name name && is_admin u && leb (admins db.users) 1) db.users
    then (db, bad_request)
    else of_statement (set_role name role db)

abbrev pub is_named : String → Option Caller → Bool
is_named name none = false
is_named name (some u) = str_eq u.name name

-- `deleteUser`.
unfoldable pub handle_delete : Option Caller → String → Db → Db × Status
handle_delete u name db = if is_named name u then (db, bad_request) else (delete_user name db, done)

abbrev id_of : Option Caller → Option String
id_of none = none
id_of (some u) = u.id

abbrev role_of : Option Caller → String → String
role_of none role = role
role_of (some u) role = u.role

abbrev known_role : String → String
known_role role = if not (str_eq role "admin") && not (str_eq role "viewer") then "viewer" else role

-- `newInvite`: for a new account, or for a passkey of the caller's own.
unfoldable pub handle_invite : ℕ → Option Caller → String → Bool → String → Db → Db × Status
unfolding of_statement
handle_invite now u role false code db =
    of_statement (new_invite now code (known_role role) none db)
handle_invite now u role true code db =
    of_statement (new_invite now code (known_role (role_of u role)) (id_of u) db)

of_minted : Minted × Db → Db × Status
of_minted (minted, db) = (db, done)
of_minted (token_exists, db) = (db, conflict)
of_minted (refused_by_table, db) = (db, bad_request)

-- `newToken`.
unfoldable pub handle_token :
    (String → String) → Option (String × String) → String → Db → Db × Status
unfolding of_minted
handle_token hash none tok db = (db, bad_request)
handle_token hash (some (name, role)) tok db =
    if is_empty (trim_space name)
    then (db, bad_request)
    else of_minted (
        new_token hash tok (trim_space name) (if str_eq role "admin" then "admin" else "viewer") db)

unfoldable pub handle : (String → String) → ℕ → Option Caller → Call → Db → Db × Status
unfolding handle_role handle_delete handle_invite handle_token
handle hash now u (put_role name role) db = handle_role name role db
handle hash now u (remove_user name) db = handle_delete u name db
handle hash now u (mint_invite role self code) db = handle_invite now u role self code db
handle hash now u (remove_invite code) db = (delete_invite code db, done)
handle hash now u (mint_token body tok) db = handle_token hash body tok db
handle hash now u (remove_token name) db = (delete_token name db, done)

-- The cookie and the header that a request comes with.
pub record Sender : Type 0 where
  pub cookie : String
  pub authorization : String

unfoldable pub request_of : Sender → Call → Request
unfolding method_of path_of
request_of s c = record {
  method = method_of c;
  path = path_of c;
  cookie = s.cookie;
  authorization = s.authorization;
}

-- A handler reads the caller that the gate found, or looks itself.
answer : (String → String) → ℕ → Sender → Call → Db → Verdict → Db × Status
unfolding handle current_user request_of
answer hash now s c db (passes none) =
    handle hash now (current_user hash now (request_of s c) db) c db
answer hash now s c db (passes (some u)) = handle hash now (some u) c db
answer hash now s c db unauthorized = (db, not_signed_in)
answer hash now s c db forbidden = (db, not_admin)

-- A request through the gate to its handler.
unfoldable pub serve : (String → String) → ℕ → Sender → Call → Db → Db × Status
unfolding answer guard request_of
serve hash now s c db = answer hash now s c db (guard hash now (request_of s c) db)
