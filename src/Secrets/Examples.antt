-- ===== src/Secrets/Examples.antt =====
-- Tests of the secrets, and each theorem at a concrete state.
use homedash.Prelude.{ℕ, true, some, List, [], ◌∷◌, ◌≡◌, refl, arith}
use homedash.Prelude.Int.{pos, negsuc}
use homedash.Prelude.Text.{
  trim_space, trim_left, trim_right, is_space, digits, unsigned, in_range, atoi,
}
use homedash.Prelude.Decimal.{digit, put_digits, put_int, join_ids, split_comma}
use homedash.Secrets.{
  Store, Chance, Cipher, bad_name, absent, holds, fresh_key, secrets_key, has_banned, is_valid_name,
  add_number, numbers, parse_ids, granted, secrets, secret_names_for, store_sealed, set_if,
  set_secret, read_secret,
}
use homedash.Secrets.Sealed.{answer_of, read_secret-set_secret}
use homedash.Secrets.Hidden.{set, delete, perform, perform-Alike, Alike}

-- A sealing that hides nothing, which is enough for the way back.
abbrev open_cipher : Cipher
open_cipher = record {
  seal = λ key nonce text name. text;
  unseal = λ key nonce text name. some text;
}

abbrev key_bytes : List ℕ
key_bytes =
    1 ∷ 2 ∷ 3 ∷ 4 ∷ 5 ∷ 6 ∷ 7 ∷ 8 ∷ 1 ∷ 2 ∷ 3 ∷ 4 ∷ 5 ∷ 6 ∷ 7 ∷ 8 ∷ 1 ∷ 2 ∷ 3 ∷ 4 ∷ 5 ∷ 6 ∷ 7 ∷ 8
    ∷ 1 ∷ 2 ∷ 3 ∷ 4 ∷ 5 ∷ 6 ∷ 7 ∷ 8 ∷ []

abbrev luck : Chance
luck = record { fresh_key = key_bytes; fresh_nonce = "n1"; can_write = true }

abbrev empty : Store
empty = record { key_file = absent; rows = [] }

abbrev kept : Store
kept = record {
  key_file = holds key_bytes;
  rows =
      record { name = "api"; ciphertext = "a"; nonce = "n"; hosts = "3"; created = 1; updated = 1 }
      ∷ [];
}

parse_test : parse_ids "3, 15,x,-2," ≡ pos 3 ∷ pos 15 ∷ negsuc 1 ∷ []
unfolding parse_ids numbers add_number split_comma trim_space trim_left trim_right is_space atoi
    unsigned digits in_range
parse_test = refl

join_test : join_ids (pos 3 ∷ negsuc 11 ∷ []) ≡ "3,-12"
unfolding join_ids put_int put_digits digit
join_test = refl

name_test : (set_secret open_cipher 5 luck empty "a b" "x" []).1 ≡ bad_name
unfolding set_secret set_if is_valid_name has_banned trim_space trim_left trim_right is_space
name_test = refl

list_test : secret_names_for kept (pos 3) ≡ "api" ∷ []
unfolding secret_names_for secrets parse_ids numbers add_number split_comma trim_space trim_left
    trim_right is_space atoi unsigned digits in_range granted
list_test = refl

read_secret-set_secret_example :
    (read_secret open_cipher luck
      (set_secret open_cipher 5 luck empty " db " "x" (pos 3 ∷ [])).0
      (trim_space " db ")
      (pos 3)).1
    ≡ answer_of (pos 3 ∷ []) (pos 3) "x"
unfolding set_secret set_if store_sealed secrets_key fresh_key is_valid_name has_banned trim_space
    trim_left trim_right is_space
read_secret-set_secret_example =
    read_secret-set_secret open_cipher (λ key nonce text name. refl) 5 luck luck empty " db " "x"
      (pos 3 ∷ []) (pos 3) refl (omega arith) refl

perform-Alike_example :
    Alike open_cipher
      (pos 4)
      (perform open_cipher kept (set 5 luck "db" "x" (pos 3 ∷ []) ∷ delete "api" ∷ []))
      kept
unfolding parse_ids numbers add_number split_comma trim_space trim_left trim_right is_space atoi
    unsigned digits in_range granted
perform-Alike_example =
    perform-Alike open_cipher (pos 4) key_bytes kept
      (set 5 luck "db" "x" (pos 3 ∷ []) ∷ delete "api" ∷ []) refl refl
      ((omega arith, refl, refl), (refl, tt))
