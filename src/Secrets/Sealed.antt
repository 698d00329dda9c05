-- ===== src/Secrets/Sealed.antt =====
-- hub/internal/store/secrets.go: what a reading gives of a secret that was set, over the whole table.
use homedash.Prelude.{
  ℕ, String, Bool, true, false, Option, none, some, List, [], ◌∷◌, ◌==◌, str_eq, str_lt, str_eq_iff,
  if◌then◌else◌, ◌≡◌, refl, arith, if-either, Bool-cases, inl, inr,
}
use homedash.Prelude.Lists.{length, All}
use homedash.Prelude.Int.{ℤ}
use homedash.Prelude.Text.{trim_space}
use homedash.Secrets.{
  Row, Store, Chance, Cipher, Answer, value, no_secret, stored, KeyFile, absent, unreadable, holds,
  secrets_key, fresh_key, put_row, find_row, granted, is_valid_name, sealed_row, store_sealed,
  set_if, set_secret, opened, read_with, read_row, read_secret,
}
use homedash.Secrets.Ids.{IsInt64, parse_ids-join_ids}

-- Names go by the text.
pub find_row-put_row :
    (n : String) (r : Row) (rows : List Row)
    → str_eq r.name n ≡ false
    → find_row n (put_row r rows) ≡ find_row n rows
unfolding find_row put_row
find_row-put_row n r [] e = ground arith
find_row-put_row n r (x ∷ rows) e =
    let i = find_row-put_row n r rows e in
    let a = str_eq_iff x.name r.name in
    let b = str_eq_iff x.name n in let c = str_eq_iff r.name n in ground arith

-- The time of creation that a row is stored with.
abbrev kept_time : Row → List Row → ℕ
kept_time r [] = r.created
kept_time r (x ∷ xs) =
    let rest = kept_time r xs in
    if str_eq x.name r.name then x.created else if str_lt r.name x.name then r.created else rest

pub find_row-put_row_same :
    (r : Row) (rows : List Row)
    → find_row r.name (put_row r rows) ≡ some (record r { created = kept_time r rows })
unfolding find_row put_row
find_row-put_row_same r [] = let a = str_eq_iff r.name r.name in ground arith
find_row-put_row_same r (x ∷ rows) =
    let i = find_row-put_row_same r rows in
    let a = str_eq_iff r.name r.name in let b = str_eq_iff x.name r.name in ground arith

-- A key that was there or was made is the key from then on.
abbrev KeyStays : KeyFile × Option (List ℕ) → Chance → Type 0
KeyStays (file, none) ch = Unit
KeyStays (file, some key) ch = secrets_key file ch ≡ (holds key, some key)

fresh_key-KeyStays :
    (file : KeyFile) (ch later : Chance)
    → length ch.fresh_key ≡ 32
    → KeyStays (fresh_key file ch) later
unfolding secrets_key fresh_key
fresh_key-KeyStays file ch later h =
    let e : (length ch.fresh_key == 32) ≡ true = ground arith in
    if-either (λ p. KeyStays p later) ch.can_write (holds ch.fresh_key, some ch.fresh_key)
      (file, none) (rw (e) refl) tt

pub secrets_key-KeyStays :
    (file : KeyFile) (ch later : Chance)
    → length ch.fresh_key ≡ 32
    → KeyStays (secrets_key file ch) later
unfolding secrets_key
secrets_key-KeyStays absent ch later h = fresh_key-KeyStays absent ch later h
secrets_key-KeyStays unreadable ch later h = tt
secrets_key-KeyStays (holds k) ch later h = elim (Bool-cases (length k == 32)) [
  | inl e ↦ rw (e, e) refl
  | inr e ↦ rw (e) (fresh_key-KeyStays (holds k) ch later h)
]

pub answer_of : List ℤ → ℤ → String → Answer
answer_of hosts id text = if granted hosts id then value text else no_secret

module _ (C : Cipher) where
  -- What the sealing is relied on for: under one key, nonce and name the text comes back.
  abbrev pub OpensSealed : Type 0
  OpensSealed =
      (key : List ℕ) (nonce text name : String)
      → C.unseal key nonce (C.seal key nonce text name) name ≡ some text

  module _ (now : ℕ) (ch later : Chance) (text : String) (hosts : List ℤ) (id : ℤ) where
    read_stored :
        (name : String) (rows : List Row) (p : KeyFile × Option (List ℕ))
        → OpensSealed
        → All IsInt64 hosts
        → KeyStays p later
        → (store_sealed C now ch name text hosts rows p).1 ≡ stored
        → (read_secret C later (store_sealed C now ch name text hosts rows p).0 name id).1
          ≡ answer_of hosts id text
    unfolding store_sealed read_secret read_row read_with opened sealed_row answer_of
    read_stored name rows (file, none) opens small k h = cc
    read_stored name rows (file, some key) opens small k h =
        let r = sealed_row C now ch name text hosts key in
        let f = find_row-put_row_same r rows in
        let g = parse_ids-join_ids hosts small in
        let o = opens key ch.fresh_nonce text name in
        elim (Bool-cases (granted hosts id)) [
          | inl e ↦ rw (f, g, e) (rw (k, o) refl)
          | inr e ↦ rw (f, g, e) refl
        ]

    read_if_valid :
        (valid : Bool) (st : Store) (name : String)
        → OpensSealed
        → All IsInt64 hosts
        → KeyStays (secrets_key st.key_file ch) later
        → (set_if C now ch st name text hosts valid).1 ≡ stored
        → (read_secret C later (set_if C now ch st name text hosts valid).0 name id).1
          ≡ answer_of hosts id text
    unfolding set_if
    read_if_valid true st name opens small k h =
        read_stored name st.rows (secrets_key st.key_file ch) opens small k h
    read_if_valid false st name opens small k h = cc

-- After a SetSecret that succeeds, a reading of the name, without the spaces around it, gives every
-- granted host the text and every other host no secret, whatever the state was. It relies on a
-- sealing that opens what it sealed, on a random source that gives 32 bytes for a key, and on
-- host ids in the range of an int64.
pub read_secret-set_secret :
    (C : Cipher)
    → OpensSealed C
    → (now : ℕ) (ch later : Chance) (st : Store) (name text : String) (hosts : List ℤ) (id : ℤ)
    → length ch.fresh_key ≡ 32
    → All IsInt64 hosts
    → (set_secret C now ch st name text hosts).1 ≡ stored
    → (read_secret C later (set_secret C now ch st name text hosts).0 (trim_space name) id).1
      ≡ answer_of hosts id text
unfolding set_secret set_if
read_secret-set_secret C opens now ch later st name text hosts id l small h =
    read_if_valid C now ch later text hosts id (is_valid_name (trim_space name)) st
      (trim_space name) opens small (secrets_key-KeyStays st.key_file ch later l) h
