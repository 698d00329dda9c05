-- ===== src/SignIn/Grants.antt =====
-- hub/internal/auth/auth.go: any sequence of sign-in calls, and the codes that are good once.
use homedash.Prelude.{
  ℕ, ◌≡◌, refl, String, Bool, true, false, not, Option, none, some, List, [], ◌∷◌, ltb, str_eq,
  arith, any, keep,
}
use homedash.Accounts.{
  Db, User, Answer, ok, fails, prune_empty_users, add_credential, user_by_id, user_by_credential,
  new_session,
}
use homedash.Accounts.Invites.{use_invite}
use homedash.SignIn.{
  Auth, Ceremony, Grant, get, delete, begin_registration, finish_registration, begin_login,
  finish_login, begun, account_for, account, role_of, spent, opened, grant_cli, redeem_cli,
  redeemed, session_for, keep_ceremony, take_ceremony, finish_with, signed_in, proved, saved,
}

pub data Call : Type 0 where
  begins_registration : String → String → Option User → String → String → Bool → Call
  finishes_registration : String → Option String → Call
  begins_login : String → Bool → Call
  finishes_login : String → Option String → Call
  grants_cli : String → User → Call
  redeems_cli : String → String → Call

abbrev pub step : (String → String) → ℕ → Call → Auth → Auth
step hash_token now (begins_registration name invite current user_id id wa_ok) a =
    (begin_registration now name invite current user_id id wa_ok a).1
step hash_token now (finishes_registration id cred) a = (finish_registration now id cred a).1
step hash_token now (begins_login id wa_ok) a = (begin_login now id wa_ok a).1
step hash_token now (finishes_login id cred) a = (finish_login now id cred a).1
step hash_token now (grants_cli code u) a = grant_cli now code u a
step hash_token now (redeems_cli code tok) a = (redeem_cli hash_token now code tok a).1

-- Each call with the time it is made at.
abbrev pub run : (String → String) → List (ℕ × Call) → Auth → Auth
run hash_token [] a = a
run hash_token ((now, c) ∷ cs) a = run hash_token cs (step hash_token now c a)

abbrev pub grants : String → ℕ × Call → Bool
grants code (now, grants_cli other u) = str_eq other code
grants code (now, _) = false

module _ {A : Type 0} where
  get-keep :
      (test : String × A → Bool) (key : String) (xs : List (String × A))
      → get key xs ≡ none
      → get key (keep test xs) ≡ none
  get-keep test key [] e = refl
  get-keep test key (x ∷ xs) e = let i = get-keep test key xs in ground arith

  get-delete : (key : String) (xs : List (String × A)) → get key (delete key xs) ≡ none
  get-delete key [] = refl
  get-delete key (x ∷ xs) = let i = get-delete key xs in ground arith

begun-grants :
    (now : ℕ) (invite role id : String) (wa_ok : Bool) (u : Answer User) (a : Auth)
    → (begun now invite role id wa_ok u a).1.grants ≡ a.grants
unfolding keep_ceremony
begun-grants now invite role id wa_ok (fails e) a = refl
begun-grants now invite role id false (ok u) a = refl
begun-grants now invite role id true (ok u) a = refl

begin_registration-grants :
    (now : ℕ) (name invite : String) (current : Option User) (user_id id : String) (wa_ok : Bool)
    (a : Auth)
    → (begin_registration now name invite current user_id id wa_ok a).1.grants ≡ a.grants
unfolding begin_registration
begin_registration-grants now name invite current user_id id wa_ok a =
    let db = prune_empty_users now a.db in
    let whose = account_for now invite current db in
    let got = account now name user_id whose db in
    begun-grants now invite (role_of whose) id wa_ok got.0 (record a { db = got.1 })

begin_login-grants :
    (now : ℕ) (id : String) (wa_ok : Bool) (a : Auth)
    → (begin_login now id wa_ok a).1.grants ≡ a.grants
unfolding begin_login keep_ceremony
begin_login-grants now id false a = refl
begin_login-grants now id true a = refl

spent-grants :
    (user_id : String) (r : Option (String × Option String) × Db) (a : Auth)
    → (spent user_id r a).1.grants ≡ a.grants
spent-grants user_id (none, db) a = refl
spent-grants user_id (some r, db) a = refl

saved-grants :
    (now : ℕ) (invite user_id : String) (r : Bool × Db) (a : Auth)
    → (saved now invite user_id r a).1.grants ≡ a.grants
saved-grants now invite user_id (false, db) a = refl
saved-grants now invite user_id (true, db) a =
    let s = spent-grants user_id (use_invite now invite db) (record a { db = db }) in ground arith

proved-grants :
    (now : ℕ) (invite : String) (u : User) (cred : Option String) (a : Auth)
    → (proved now invite u cred a).1.grants ≡ a.grants
proved-grants now invite u none a = refl
proved-grants now invite u (some cred) a =
    saved-grants now invite u.id (add_credential u.id cred a.db) a

finish_user-grants :
    (now : ℕ) (invite : String) (cred : Option String) (u : Option User) (a : Auth)
    → (elim u as (λ _. Answer User × Auth) [
      | none ↦ (fails "panic: the ceremony has no account", a)
      | some v ↦ proved now invite v cred a
    ]).1.grants
      ≡ a.grants
finish_user-grants now invite cred none a = refl
finish_user-grants now invite cred (some v) a = proved-grants now invite v cred a

finish_with-grants :
    (now : ℕ) (cred : Option String) (r : Option Ceremony × Auth)
    → (finish_with now cred r).1.grants ≡ r.1.grants
finish_with-grants now cred (none, a) = refl
finish_with-grants now cred (some c, a) = finish_user-grants now c.invite cred c.user a

finish_registration-grants :
    (now : ℕ) (id : String) (cred : Option String) (a : Auth)
    → (finish_registration now id cred a).1.grants ≡ a.grants
unfolding finish_registration take_ceremony
finish_registration-grants now id cred a = finish_with-grants now cred (take_ceremony now id a)

signed_in-grants :
    (cred : Option String) (r : Option Ceremony × Auth) → (signed_in cred r).1.grants ≡ r.1.grants
signed_in-grants cred (none, a) = refl
signed_in-grants none (some c, a) = refl
signed_in-grants (some cred) (some c, a) =
    elim (user_by_credential cred a.db)
      as (λ o.
        (elim o as (λ _. Answer User × Auth) [
          | none ↦ (fails "unknown passkey", a)
          | some u ↦ (ok u, a)
        ]).1.grants
        ≡ a.grants) [ none ↦ refl | some u ↦ refl ]

finish_login-grants :
    (now : ℕ) (id : String) (cred : Option String) (a : Auth)
    → (finish_login now id cred a).1.grants ≡ a.grants
unfolding finish_login take_ceremony
finish_login-grants now id cred a = signed_in-grants cred (take_ceremony now id a)

opened-grants : (u : User) (r : Bool × Db) (a : Auth) → (opened u r a).1.grants ≡ a.grants
opened-grants u (false, db) a = refl
opened-grants u (true, db) a = refl

session_for-grants :
    (hash_token : String → String) (now : ℕ) (tok : String) (u : Option User) (a : Auth)
    → (session_for hash_token now tok u a).1.grants ≡ a.grants
session_for-grants hash_token now tok none a = refl
session_for-grants hash_token now tok (some u) a =
    opened-grants u (new_session hash_token now tok u.id a.db) a

redeemed-grants :
    (hash_token : String → String) (now : ℕ) (tok : String) (g : Option Grant) (a : Auth)
    → (redeemed hash_token now tok g a).1.grants ≡ a.grants
redeemed-grants hash_token now tok none a = refl
redeemed-grants hash_token now tok (some g) a =
    let s = session_for-grants hash_token now tok (user_by_id g.user_id a.db) a in ground arith

redeem_cli-grants :
    (hash_token : String → String) (now : ℕ) (code tok : String) (a : Auth)
    → (redeem_cli hash_token now code tok a).1.grants ≡ delete code a.grants
unfolding redeem_cli
redeem_cli-grants hash_token now code tok a =
    redeemed-grants hash_token now tok (get code a.grants)
      (record a { grants = delete code a.grants })

grant_cli-other :
    (now : ℕ) (code other : String) (u : User) (a : Auth)
    → str_eq other code ≡ false
    → get code a.grants ≡ none
    → get code (grant_cli now other u a).grants ≡ none
unfolding grant_cli
grant_cli-other now code other u a n e =
    let e1 = get-keep (λ g. not (ltb g.1.expires now)) code a.grants e in
    rw n (
      get-keep (λ g. not (str_eq g.0 other)) code (keep (λ g. not (ltb g.1.expires now)) a.grants)
        e1)

step-gone :
    (hash_token : String → String) (now : ℕ) (code : String) (c : Call) (a : Auth)
    → grants code (now, c) ≡ false
    → get code a.grants ≡ none
    → get code (step hash_token now c a).grants ≡ none
step-gone hash_token now code (begins_registration name invite current user_id id wa_ok) a n e =
    rw (begin_registration-grants now name invite current user_id id wa_ok a) e
step-gone hash_token now code (finishes_registration id cred) a n e =
    rw (finish_registration-grants now id cred a) e
step-gone hash_token now code (begins_login id wa_ok) a n e =
    rw (begin_login-grants now id wa_ok a) e
step-gone hash_token now code (finishes_login id cred) a n e =
    rw (finish_login-grants now id cred a) e
step-gone hash_token now code (grants_cli other u) a n e = grant_cli-other now code other u a n e
step-gone hash_token now code (redeems_cli other tok) a n e =
    rw (redeem_cli-grants hash_token now other tok a)
      (get-keep (λ g. not (str_eq g.0 other)) code a.grants e)

run-gone :
    (hash_token : String → String) (code : String) (cs : List (ℕ × Call)) (a : Auth)
    → any (grants code) cs ≡ false
    → get code a.grants ≡ none
    → get code (run hash_token cs a).grants ≡ none
run-gone hash_token code [] a n e = e
run-gone hash_token code ((now, c) ∷ cs) a n e =
    run-gone hash_token code cs (step hash_token now c a) (ground arith)
      (step-gone hash_token now code c a (ground arith) e)

redeem_cli-unknown :
    (hash_token : String → String) (code : String) (now : ℕ) (tok : String) (a : Auth)
    → get code a.grants ≡ none
    → ((redeem_cli hash_token now code tok a).0 ≡ fails "the code is not live; run login again")
      × ((redeem_cli hash_token now code tok a).1.db ≡ a.db)
unfolding redeem_cli
redeem_cli-unknown hash_token code now tok a e = rw e (refl, refl)

-- A CLI code is good once: whatever its first redemption answered, and whatever sign-in calls follow,
-- as long as none of them draws the same code again, a later redemption of it fails and opens no
-- session.
pub redeem_cli_once :
    (hash_token : String → String) (code : String) (t1 t2 : ℕ) (tok1 tok2 : String)
    (cs : List (ℕ × Call)) (a : Auth)
    → any (grants code) cs ≡ false
    → let a' = run hash_token cs (redeem_cli hash_token t1 code tok1 a).1 in
      ((redeem_cli hash_token t2 code tok2 a').0 ≡ fails "the code is not live; run login again")
      × ((redeem_cli hash_token t2 code tok2 a').1.db ≡ a'.db)
redeem_cli_once hash_token code t1 t2 tok1 tok2 cs a n =
    let first = (redeem_cli hash_token t1 code tok1 a).1 in
    redeem_cli-unknown hash_token code t2 tok2 (run hash_token cs first) (
      run-gone hash_token code cs first n
        (rw (redeem_cli-grants hash_token t1 code tok1 a) (get-delete code a.grants)))
