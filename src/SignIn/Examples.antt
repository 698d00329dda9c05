-- ===== src/SignIn/Examples.antt =====
-- Sign-in at concrete inputs.
use homedash.Prelude.{ℕ, ◌≡◌, refl, true, none, some, List, [], ◌∷◌}
use homedash.Accounts.{Db, User, fails}
use homedash.SignIn.{Auth, Ceremony, redeem_cli}
use homedash.SignIn.Grants.{Call, grants_cli, redeems_cli, run, redeem_cli_once}

abbrev ada : User
ada = record { id = "u1"; name = "ada"; role = "admin"; created = 0 }

abbrev bob : User
bob = record { id = "u2"; name = "bob"; role = "viewer"; created = 50 }

-- Bob's registration waits, and its invite was spent by another one.
abbrev db : Db
db = record {
  users = ada ∷ bob ∷ [];
  credentials = (record { id = "k1"; user_id = "u1" }) ∷ [];
  sessions = [];
  invites =
      (record { code = "c1"; role = "viewer"; user_id = none; expires = 1000; used = true }) ∷ [];
  tokens = [];
}

abbrev bobs : Ceremony
bobs = record { user = some bob; role = "viewer"; invite = "c1"; expires = 200 }

abbrev hub : Auth
hub = record {
  db = db;
  inflight = ("r1", bobs) ∷ [];
  grants = ("g1", record { user_id = "u1"; expires = 150 }) ∷ [];
}

abbrev calls : List (ℕ × Call)
calls = (110, grants_cli "g2" ada) ∷ (111, redeems_cli "g2" "t2") ∷ []

redeem_cli_once_example :
    ((redeem_cli
        (λ t. t)
        112
        "g1"
        "t3"
        (run (λ t. t) calls (redeem_cli (λ t. t) 100 "g1" "t1" hub).1)).0
      ≡ fails "the code is not live; run login again")
    × ((redeem_cli
          (λ t. t)
          112
          "g1"
          "t3"
          (run (λ t. t) calls (redeem_cli (λ t. t) 100 "g1" "t1" hub).1)).1.db
        ≡ (run (λ t. t) calls (redeem_cli (λ t. t) 100 "g1" "t1" hub).1).db)
redeem_cli_once_example = redeem_cli_once (λ t. t) "g1" 100 112 "t1" "t3" calls hub refl
