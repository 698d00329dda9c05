-- ===== src/Accounts/Invites.antt =====
-- hub/internal/store/auth.go: `NewInvite`, `PeekInvite`, `UseInvite`, `DeleteInvite`.
use homedash.Prelude.{
  ℕ, ◌+◌, ◌≡◌, refl, sym, ◌∙◌, String, Bool, true, false, not, ◌||◌, ◌&&◌, Option, none, some, List,
  [], ◌∷◌, ◌++◌, ltb, str_eq, if◌then◌else◌, any, keep, map, arith,
}
use homedash.Accounts.{Db, Invite, has_user}

abbrev pub one_day : ℕ
one_day = 86400

abbrev pub is_live : ℕ → String → Invite → Bool
is_live now code i = str_eq i.code code && not i.used && ltb now i.expires

abbrev no_user : Option String → Db → Bool
no_user none db = false
no_user (some id) db = not (has_user id db)

unfoldable pub new_invite : ℕ → String → String → Option String → Db → Bool × Db
new_invite now code role user_id db =
    if any (λ i. str_eq i.code code) db.invites || no_user user_id db then (false, db) else (
      true,
      record db {
        invites =
            db.invites
            ++ (record {
              code = code;
              role = role;
              user_id = user_id;
              expires = now + one_day;
              used = false;
            })
              ∷ [];
      },
    )

unfoldable pub delete_invite : String → Db → Db
delete_invite code db = record db { invites = keep (λ i. not (str_eq i.code code)) db.invites }

abbrev pub find_live : ℕ → String → List Invite → Option Invite
find_live now code [] = none
find_live now code (i ∷ is) = if is_live now code i then some i else find_live now code is

unfoldable pub peek_invite : ℕ → String → Db → Option (String × Option String)
peek_invite now code db = elim (find_live now code db.invites) [
  | none ↦ none
  | some i ↦ some (i.role, i.user_id)
]

abbrev pub spend : String → Invite → Invite
spend code i = if str_eq i.code code then record i { used = true } else i

unfoldable pub use_invite : ℕ → String → Db → Option (String × Option String) × Db
use_invite now code db = elim (find_live now code db.invites) [
  | none ↦ (none, db)
  | some i ↦ (some (i.role, i.user_id), record db { invites = map (spend code) db.invites })
]

pub data InviteCall : Type 0 where
  mints : ℕ → String → String → Option String → InviteCall
  revokes : String → InviteCall
  spends : ℕ → String → InviteCall

abbrev pub step : InviteCall → Db → Db
step (mints now code role user_id) db = (new_invite now code role user_id db).1
step (revokes code) db = delete_invite code db
step (spends now code) db = (use_invite now code db).1

abbrev pub run : List InviteCall → Db → Db
run [] db = db
run (c ∷ cs) db = run cs (step c db)

abbrev pub mints_code : String → InviteCall → Bool
mints_code code (mints now other role user_id) = str_eq other code
mints_code code _ = false

-- A row of the code that is not used yet.
abbrev open_code : String → Invite → Bool
open_code code i = str_eq i.code code && not i.used

abbrev Spent : String → Db → Type 0
Spent code db = any (open_code code) db.invites ≡ false

spend-Spent :
    (code : String) (is : List Invite) → any (open_code code) (map (spend code) is) ≡ false
spend-Spent code [] = refl
spend-Spent code (i ∷ is) = let r = spend-Spent code is in ground arith

spend-keeps :
    (code other : String) (is : List Invite)
    → any (open_code code) is ≡ false
    → any (open_code code) (map (spend other) is) ≡ false
spend-keeps code other [] e = refl
spend-keeps code other (i ∷ is) e = let r = spend-keeps code other is in ground arith

keep-keeps :
    (test : Invite → Bool) (code : String) (is : List Invite)
    → any (open_code code) is ≡ false
    → any (open_code code) (keep test is) ≡ false
keep-keeps test code [] e = refl
keep-keeps test code (i ∷ is) e = let r = keep-keeps test code is in ground arith

use_invite-invites :
    (now : ℕ) (code : String) (db : Db) (i : Option Invite)
    → find_live now code db.invites ≡ i
    → (use_invite now code db).1.invites
      ≡ (elim i as (λ _. List Invite) [ none ↦ db.invites | some j ↦ map (spend code) db.invites ])
unfolding use_invite
use_invite-invites now code db none e = rw (e, use_invite) refl
use_invite-invites now code db (some i) e = rw (e, use_invite) refl

find_live-Spent :
    (now : ℕ) (code : String) (is : List Invite)
    → any (open_code code) is ≡ false
    → find_live now code is ≡ none
find_live-Spent now code [] e = refl
find_live-Spent now code (i ∷ is) e = let r = find_live-Spent now code is in ground arith

snoc-keeps :
    (code : String) (is : List Invite) (i : Invite)
    → any (open_code code) is ≡ false
    → str_eq i.code code ≡ false
    → any (open_code code) (is ++ i ∷ []) ≡ false
snoc-keeps code [] i e n = ground arith
snoc-keeps code (j ∷ is) i e n = let r = snoc-keeps code is i in ground arith

step-Spent :
    (code : String) (c : InviteCall) (db : Db)
    → mints_code code c ≡ false
    → Spent code db
    → Spent code (step c db)
unfolding new_invite delete_invite
step-Spent code (mints now other role user_id) db n e =
    let s =
      snoc-keeps code db.invites
        (record {
          code = other;
          role = role;
          user_id = user_id;
          expires = now + one_day;
          used = false;
        })
        e n in
    ground arith
step-Spent code (revokes other) db n e =
    keep-keeps (λ i. not (str_eq i.code other)) code db.invites e
step-Spent code (spends now other) db n e =
    rw (use_invite-invites now other db (find_live now other db.invites) refl)
      (elim (find_live now other db.invites)
        as (λ o.
          any (open_code code) (elim o as (λ _. List Invite) [
            | none ↦ db.invites
            | some j ↦ map (spend other) db.invites
          ])
          ≡ false) [ none ↦ e | some j ↦ spend-keeps code other db.invites e ])

run-Spent :
    (code : String) (cs : List InviteCall) (db : Db)
    → any (mints_code code) cs ≡ false
    → Spent code db
    → Spent code (run cs db)
run-Spent code [] db n e = e
run-Spent code (c ∷ cs) db n e =
    run-Spent code cs (step c db) (ground arith) (step-Spent code c db (ground arith) e)

use_invite-Spent :
    (now : ℕ) (code : String) (db : Db) (r : String × Option String) (o : Option Invite)
    → find_live now code db.invites ≡ o
    → (use_invite now code db).0 ≡ some r
    → Spent code (use_invite now code db).1
unfolding use_invite
use_invite-Spent now code db r none q e =
    let k : (use_invite now code db).0 ≡ none = rw (q, use_invite) refl in
    let c = sym k ∙ e in ground arith
use_invite-Spent now code db r (some i) q e = rw (q, use_invite) (spend-Spent code db.invites)

dead-refused :
    (now : ℕ) (code : String) (db : Db)
    → find_live now code db.invites ≡ none
    → (peek_invite now code db ≡ none) × (use_invite now code db ≡ (none, db))
unfolding peek_invite use_invite
dead-refused now code db e = (rw (e, peek_invite) refl, rw (e, use_invite) refl)

-- An invite that was spent is never live again: whatever is minted under other codes, revoked or
-- spent afterwards, no later look finds it live and no later call spends it.
pub invite_is_spent_once :
    (now later : ℕ) (code : String) (cs : List InviteCall) (db : Db) (r : String × Option String)
    → (use_invite now code db).0 ≡ some r
    → any (mints_code code) cs ≡ false
    → let db' = run cs (use_invite now code db).1 in
      (peek_invite later code db' ≡ none) × (use_invite later code db' ≡ (none, db'))
invite_is_spent_once now later code cs db r e n =
    let first = (use_invite now code db).1 in
    let s =
      run-Spent code cs first n
        (use_invite-Spent now code db r (find_live now code db.invites) refl e) in
    dead-refused later code (run cs first) (find_live-Spent later code (run cs first).invites s)
