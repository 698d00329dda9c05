-- ===== src/Accounts/Examples.antt =====
-- Accounts at concrete inputs: one admin, an invite of code "c1", two tokens of one name.
use homedash.Prelude.{◌≡◌, refl, false, none, List, [], ◌∷◌}
use homedash.Accounts.{Db}
use homedash.Accounts.Invites.{
  InviteCall, mints, spends, revokes, run, use_invite, peek_invite, invite_is_spent_once,
}
use homedash.Accounts.Tokens
use homedash.Accounts.Tokens.{
  TokenCall, distinct_names, dedupe_token_names, token_names_stay_distinct,
}

abbrev pub one_admin : Db
one_admin = record {
  users = (record { id = "u1"; name = "ada"; role = "admin"; created = 0 }) ∷ [];
  credentials = (record { id = "k1"; user_id = "u1" }) ∷ [];
  sessions = [];
  invites =
      (record { code = "c1"; role = "viewer"; user_id = none; expires = 1000; used = false }) ∷ [];
  tokens =
      (record { hash = "h1"; name = "ci"; role = "admin" })
      ∷ (record { hash = "h2"; name = "ci"; role = "viewer" })
      ∷ [];
}

abbrev later_calls : List InviteCall
later_calls = mints 11 "c2" "viewer" none ∷ spends 12 "c1" ∷ revokes "c2" ∷ []

invite_is_spent_once_example :
    (peek_invite 13 "c1" (run later_calls (use_invite 10 "c1" one_admin).1) ≡ none)
    × (use_invite 13 "c1" (run later_calls (use_invite 10 "c1" one_admin).1)
        ≡ (none, run later_calls (use_invite 10 "c1" one_admin).1))
unfolding use_invite
invite_is_spent_once_example =
    invite_is_spent_once 10 13 "c1" later_calls one_admin ("viewer", none) refl refl

abbrev token_calls : List TokenCall
token_calls =
    Tokens.mints "t3" "ci" "admin" ∷ Tokens.revokes "ci" ∷ Tokens.mints "t4" "ci" "admin" ∷ []
