-- ===== src/Accounts/Tokens.antt =====
-- hub/internal/store/auth.go: `NewToken`, `TokenRole`, `DeleteToken`, `dedupeTokenNames`. A name is
-- one token's: the code checks it, and the index `tokens_name` does so again.
use homedash.Prelude.{
  ◌≡◌, refl, String, Bool, true, false, not, ◌&&◌, Option, none, some, List, [], ◌∷◌, ◌++◌, str_eq,
  str_eq_apart, if◌then◌else◌, any, keep, arith,
}
use homedash.Accounts.{Db, Token}

pub data Minted : Type 0 where
  minted : Minted
  token_exists : Minted
  refused_by_table : Minted

unfoldable pub new_token : (String → String) → String → String → String → Db → Minted × Db
new_token hash_token tok name role db =
    if any (λ t. str_eq t.name name) db.tokens
    then (token_exists, db)
    else if any (λ t. str_eq t.hash (hash_token tok)) db.tokens
    then (refused_by_table, db)
    else (
      minted,
      record db {
        tokens = db.tokens ++ (record { hash = hash_token tok; name = name; role = role }) ∷ [];
      },
    )

abbrev pub find_token : String → List Token → Option Token
find_token hash [] = none
find_token hash (t ∷ ts) = if str_eq t.hash hash then some t else find_token hash ts

unfoldable pub token_role : (String → String) → String → Db → Option (String × String)
token_role hash_token tok db = elim (find_token (hash_token tok) db.tokens) [
  | none ↦ none
  | some t ↦ some (t.name, t.role)
]

unfoldable pub delete_token : String → Db → Db
delete_token name db = record db { tokens = keep (λ t. not (str_eq t.name name)) db.tokens }

-- The newest row of each name stays.
abbrev newest : List Token → List Token
newest [] = []
newest (t ∷ ts) =
    let rest = newest ts in if any (λ u. str_eq u.name t.name) ts then rest else t ∷ rest

unfoldable pub dedupe_token_names : Db → Db
dedupe_token_names db = record db { tokens = newest db.tokens }

-- No two tokens have one name.
abbrev pub distinct_names : List Token → Bool
distinct_names [] = true
distinct_names (t ∷ ts) = not (any (λ u. str_eq u.name t.name) ts) && distinct_names ts

abbrev pub absent : String → List Token → Bool
absent name ts = not (any (λ u. str_eq u.name name) ts)

absent-snoc :
    (name : String) (ts : List Token) (t : Token)
    → absent name ts ≡ true
    → str_eq t.name name ≡ false
    → absent name (ts ++ t ∷ []) ≡ true
absent-snoc name [] t e n = ground arith
absent-snoc name (u ∷ ts) t e n = let r = absent-snoc name ts t in ground arith

distinct_names-snoc :
    (ts : List Token) (t : Token)
    → distinct_names ts ≡ true
    → absent t.name ts ≡ true
    → distinct_names (ts ++ t ∷ []) ≡ true
distinct_names-snoc [] t d e = refl
distinct_names-snoc (u ∷ ts) t d e =
    let r = distinct_names-snoc ts t in
    let s = absent-snoc u.name ts t in let x = str_eq_apart u.name t.name in ground arith

absent-keep :
    (test : Token → Bool) (name : String) (ts : List Token)
    → absent name ts ≡ true
    → absent name (keep test ts) ≡ true
absent-keep test name [] e = refl
absent-keep test name (u ∷ ts) e = let r = absent-keep test name ts in ground arith

distinct_names-keep :
    (test : Token → Bool) (ts : List Token)
    → distinct_names ts ≡ true
    → distinct_names (keep test ts) ≡ true
distinct_names-keep test [] d = refl
distinct_names-keep test (u ∷ ts) d =
    let r = distinct_names-keep test ts in let s = absent-keep test u.name ts in ground arith

absent-newest :
    (name : String) (ts : List Token) → absent name ts ≡ true → absent name (newest ts) ≡ true
absent-newest name [] e = refl
absent-newest name (u ∷ ts) e = let r = absent-newest name ts in ground arith

distinct_names-newest : (ts : List Token) → distinct_names (newest ts) ≡ true
distinct_names-newest [] = refl
distinct_names-newest (u ∷ ts) =
    let r = distinct_names-newest ts in let s = absent-newest u.name ts in ground arith

pub data TokenCall : Type 0 where
  mints : String → String → String → TokenCall
  revokes : String → TokenCall

abbrev pub step : (String → String) → TokenCall → Db → Db
step hash_token (mints tok name role) db = (new_token hash_token tok name role db).1
step hash_token (revokes name) db = delete_token name db

abbrev pub run : (String → String) → List TokenCall → Db → Db
run hash_token [] db = db
run hash_token (c ∷ cs) db = run hash_token cs (step hash_token c db)

new_token-distinct :
    (hash_token : String → String) (tok name role : String) (db : Db)
    → distinct_names db.tokens ≡ true
    → distinct_names (new_token hash_token tok name role db).1.tokens ≡ true
unfolding new_token
new_token-distinct hash_token tok name role db d =
    let s =
      distinct_names-snoc db.tokens (record { hash = hash_token tok; name = name; role = role })
        d in
    ground arith

run-distinct :
    (hash_token : String → String) (cs : List TokenCall) (db : Db)
    → distinct_names db.tokens ≡ true
    → distinct_names (run hash_token cs db).tokens ≡ true
unfolding delete_token
run-distinct hash_token [] db d = d
run-distinct hash_token (mints tok name role ∷ cs) db d =
    run-distinct hash_token cs (new_token hash_token tok name role db).1
      (new_token-distinct hash_token tok name role db d)
run-distinct hash_token (revokes name ∷ cs) db d =
    run-distinct hash_token cs (delete_token name db)
      (distinct_names-keep (λ t. not (str_eq t.name name)) db.tokens d)

-- After the repair at start-up, over any sequence of tokens minted and revoked, no two tokens have
-- one name.
pub token_names_stay_distinct :
    (hash_token : String → String) (cs : List TokenCall) (db : Db)
    → distinct_names (run hash_token cs (dedupe_token_names db)).tokens ≡ true
unfolding dedupe_token_names
token_names_stay_distinct hash_token cs db =
    run-distinct hash_token cs (dedupe_token_names db) (distinct_names-newest db.tokens)
