-- ===== src/Secrets.antt =====
-- hub/internal/store/secrets.go: the secrets the hub keeps for its machines. AES-GCM is an argument:
-- `seal` and `unseal` take the key, the nonce, the text and the name it is bound to. What the state
-- directory and the random source give is in the arguments too; times are numbers. The table is held
-- in the order that the listing asks for.
pub mod Ids
pub mod Sealed
pub mod Hidden
pub mod Examples
use Prim.Native.Char.{Char, code}
use Prim.Native.String
use homedash.Prelude.{
  ℕ, String, Bool, true, false, not, ◌&&◌, ◌||◌, Option, none, some, List, [], ◌∷◌, ◌==◌, str_eq,
  str_lt, if◌then◌else◌, any, keep, map, ◌≡◌, refl,
}
use homedash.Prelude.Lists.{length}
use homedash.Prelude.Int.{ℤ, pos, negsuc}
use homedash.Prelude.Text.{trim_space, atoi, is_empty}
use homedash.Prelude.Decimal.{join_ids, split_comma}

pub record Row : Type 0 where
  pub name : String
  pub ciphertext : String
  pub nonce : String
  pub hosts : String
  pub created : ℕ
  pub updated : ℕ

-- What the panel sees of a secret.
pub record Secret : Type 0 where
  pub name : String
  pub hosts : List ℤ  -- empty: every host
  pub created : ℕ
  pub updated : ℕ

-- The file `secrets.key` as a read finds it.
pub data KeyFile : Type 0 where
  absent : KeyFile
  unreadable : KeyFile
  holds : List ℕ → KeyFile

pub record Store : Type 0 where
  pub key_file : KeyFile
  pub rows : List Row

-- What the random source gives, and whether the key file can be written.
pub record Chance : Type 0 where
  pub fresh_key : List ℕ
  pub fresh_nonce : String
  pub can_write : Bool

fresh_key : KeyFile → Chance → KeyFile × Option (List ℕ)
fresh_key file ch =
    if ch.can_write then (holds (ch.fresh_key), some (ch.fresh_key)) else (file, none)

-- `secretsKey`: the key, made where there is none of 32 bytes.
unfoldable pub secrets_key : KeyFile → Chance → KeyFile × Option (List ℕ)
unfolding fresh_key
secrets_key (holds k) ch = if length k == 32 then (holds k, some k) else fresh_key (holds k) ch
secrets_key absent ch = fresh_key absent ch
secrets_key unreadable ch = (unreadable, none)

-- `strings.ContainsAny(name, "/ \t\n")`.
unfoldable pub has_banned : String → Bool
has_banned String.[] = false
has_banned (String.◌∷◌ c s) =
    code c == 47 || code c == 32 || code c == 9 || code c == 10 || has_banned s

unfoldable pub is_valid_name : String → Bool
unfolding has_banned
is_valid_name name = not (is_empty name || has_banned name)

-- The statement that stores a row: an update keeps the time of creation.
unfoldable pub put_row : Row → List Row → List Row
put_row r [] = r ∷ []
put_row r (x ∷ xs) =
    let rest = put_row r xs in
    if str_eq x.name r.name
    then record r { created = x.created } ∷ xs
    else if str_lt r.name x.name
    then r ∷ x ∷ xs
    else x ∷ rest

unfoldable pub find_row : String → List Row → Option Row
find_row name [] = none
find_row name (x ∷ xs) = let rest = find_row name xs in if str_eq x.name name then some x else rest

-- `DeleteSecret`.
unfoldable pub delete_secret : Store → String → Store
delete_secret st name = record st { rows = keep (λ x. not (str_eq x.name name)) st.rows }

add_number : Option ℤ → List ℤ → List ℤ
add_number none ns = ns
add_number (some n) ns = n ∷ ns

numbers : List String → List ℤ
unfolding add_number
numbers [] = []
numbers (p ∷ ps) = add_number (atoi (trim_space p)) (numbers ps)

-- `parseIDs`: the pieces that are numbers.
unfoldable pub parse_ids : String → List ℤ
unfolding numbers
parse_ids s = let (piece, pieces) = split_comma s in numbers (piece ∷ pieces)

abbrev pub same_int : ℤ → ℤ → Bool
same_int (pos m) (pos n) = m == n
same_int (negsuc m) (negsuc n) = m == n
same_int _ _ = false

unfoldable pub granted : List ℤ → ℤ → Bool
granted [] id = true
granted (h ∷ hs) id = any (λ g. same_int g id) (h ∷ hs)

-- `Secrets`, in the order of the names, and `SecretNamesFor`.
unfoldable pub secrets : Store → List Secret
secrets st =
    map
      (λ x. record {
        name = x.name;
        hosts = parse_ids x.hosts;
        created = x.created;
        updated = x.updated;
      })
      st.rows

unfoldable pub secret_names_for : Store → ℤ → List String
unfolding secrets
secret_names_for st id = map (λ s. s.name) (keep (λ s. granted s.hosts id) (secrets st))

pub data Answer : Type 0 where
  value : String → Answer
  no_secret : Answer
  failed : Answer

pub data Outcome : Type 0 where
  stored : Outcome
  bad_name : Outcome
  no_key : Outcome

-- AES-GCM under a key: nonce, text and name to the sealed text, and back where all three fit.
pub record Cipher : Type 0 where
  pub seal : List ℕ → String → String → String → String
  pub unseal : List ℕ → String → String → String → Option String

module _ (C : Cipher) where
  sealed_row : ℕ → Chance → String → String → List ℤ → List ℕ → Row
  sealed_row now ch name text hosts key = record {
    name = name;
    ciphertext = C.seal key ch.fresh_nonce text name;
    nonce = ch.fresh_nonce;
    hosts = join_ids hosts;
    created = now;
    updated = now;
  }

  store_sealed :
      ℕ → Chance → String → String → List ℤ → List Row → KeyFile × Option (List ℕ) → Store × Outcome
  unfolding sealed_row
  store_sealed now ch name text hosts rows (file, none) =
      (record { key_file = file; rows = rows }, no_key)
  store_sealed now ch name text hosts rows (file, some key) = (
    record { key_file = file; rows = put_row (sealed_row now ch name text hosts key) rows },
    stored,
  )

  set_if : ℕ → Chance → Store → String → String → List ℤ → Bool → Store × Outcome
  unfolding store_sealed
  set_if now ch st name text hosts false = (st, bad_name)
  set_if now ch st name text hosts true =
      store_sealed now ch name text hosts st.rows (secrets_key st.key_file ch)

  -- `SetSecret`.
  unfoldable pub set_secret : ℕ → Chance → Store → String → String → List ℤ → Store × Outcome
  unfolding set_if
  set_secret now ch st name text hosts =
      set_if now ch st (trim_space name) text hosts (is_valid_name (trim_space name))

  opened : Option String → Answer
  opened none = failed
  opened (some text) = value text

  read_with : String → Row → KeyFile × Option (List ℕ) → Answer
  unfolding opened
  read_with name r (file, none) = failed
  read_with name r (file, some key) = opened (C.unseal key r.nonce r.ciphertext name)

  read_row : Chance → Store → String → ℤ → Option Row → Store × Answer
  unfolding read_with
  read_row ch st name id none = (st, no_secret)
  read_row ch st name id (some r) =
      if granted (parse_ids r.hosts) id
      then (
        record st { key_file = (secrets_key st.key_file ch).0 },
        read_with name r (secrets_key st.key_file ch),
      )
      else (st, no_secret)

  -- `ReadSecret`: a secret that is not granted is no secret.
  unfoldable pub read_secret : Chance → Store → String → ℤ → Store × Answer
  unfolding read_row
  read_secret ch st name id = read_row ch st name id (find_row name st.rows)
