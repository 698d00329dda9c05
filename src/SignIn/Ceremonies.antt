-- ===== src/SignIn/Ceremonies.antt =====
-- hub/internal/auth/auth.go: what the end of a registration leaves behind.
use homedash.Prelude.{
  ℕ, ◌≡◌, refl, String, Bool, true, false, none, some, [], ◌∷◌, ◌++◌, str_eq, ◌==◌, any, ltb,
}
use homedash.Accounts.{User, fails, add_credential, has_user, user_count, prune_empty_users}
use homedash.Accounts.Invites.{use_invite, find_live}
use homedash.SignIn.{
  Auth, Ceremony, get, begin_registration, finish_registration, take_ceremony, account_for,
}

-- The registration of `u` waits in the map, in time.
abbrev pub Waiting : ℕ → String → Ceremony → User → Auth → Type 0
Waiting now id c u a = (get id a.inflight ≡ some c) × (ltb now c.expires ≡ true) × (c.user ≡ some u)

-- The new passkey can be stored: its id is not known, and the account is there.
abbrev pub Storable : String → User → Auth → Type 0
Storable cred u a =
    (any (λ c. str_eq c.id cred) a.db.credentials ≡ false) × (has_user u.id a.db ≡ true)

-- A registration whose invite is no longer live by the time the browser answers ends with the error
-- of the invite, yet the passkey is stored: it stands in the table under the account all the same.
pub passkey_without_invite :
    (now : ℕ) (id cred : String) (c : Ceremony) (u : User) (a : Auth)
    → Waiting now id c u a
    → Storable cred u a
    → str_eq c.invite "" ≡ false
    → find_live now c.invite a.db.invites ≡ none
    → ((finish_registration now id (some cred) a).0 ≡ fails "the code is not live")
      × ((finish_registration now id (some cred) a).1.db.credentials
          ≡ a.db.credentials ++ (record { id = cred; user_id = u.id }) ∷ [])
unfolding finish_registration take_ceremony add_credential use_invite
passkey_without_invite now id cred c u a (g, t, w) (n, h) s e =
    rw (g, t, w, n, h, s, e, use_invite) (refl, refl)

-- With an account there is, nobody signed in and no invite, a registration is refused: it makes no
-- account and no ceremony, whatever name is asked for.
pub registration_is_closed :
    (now : ℕ) (name user_id id : String) (wa_ok : Bool) (a : Auth)
    → (user_count (prune_empty_users now a.db) == 0) ≡ false
    → begin_registration now name "" none user_id id wa_ok a ≡ (
      fails "registration is closed; ask an admin for an invite",
      record a { db = prune_empty_users now a.db },
    )
unfolding begin_registration account_for
registration_is_closed now name user_id id wa_ok a h = rw h refl
