-- ===== src/Hosts.antt =====
-- The hosts table as the other parts read it (hub/internal/store/hosts.go). What the hub reads of a
-- host's facts is decoded: JSON is left out.
use Prim.Native.Char.{code}
use Prim.Native.String
use Prim.Native.Nat.{◌/◌, ◌%◌}
use homedash.Prelude.{
  ℕ, zero, suc, ◌+◌, ltb, leb, String, ◌≡◌, refl, Bool, true, false, ◌&&◌, ◌||◌, Option, none, some,
  List, [], ◌∷◌, str_eq, if◌then◌else◌,
}
use homedash.Prelude.Text.{trim_space}

pub data Status : Type 0 where
  unknown online offline mismatch : Status

abbrev pub is_online : Status → Bool
is_online online = true
is_online _ = false

pub record Host : Type 0 where
  pub id : ℕ
  pub name : String
  pub addr : String
  pub status : Status
  pub agent_model : String
  pub mem_total : ℕ  -- facts.MemTotal, bytes
  pub agent : Option Bool  -- facts.Agent, and its Account
  pub ollama : Bool  -- facts.Ollama.Installed

-- The base-ten text of a number, `strconv.FormatInt`; the fuel is at least the number of digits.
digit : ℕ → String
digit zero = "0"
digit (suc zero) = "1"
digit (suc (suc zero)) = "2"
digit (suc (suc (suc zero))) = "3"
digit (suc (suc (suc (suc zero)))) = "4"
digit (suc (suc (suc (suc (suc zero))))) = "5"
digit (suc (suc (suc (suc (suc (suc zero)))))) = "6"
digit (suc (suc (suc (suc (suc (suc (suc zero))))))) = "7"
digit (suc (suc (suc (suc (suc (suc (suc (suc zero)))))))) = "8"
digit _ = "9"

decimal_fuel : ℕ → ℕ → String
decimal_fuel zero n = ""
decimal_fuel (suc f) n =
    let longer = String.◌++◌ (decimal_fuel f (n / 10)) (digit (n % 10)) in
    if ltb n 10 then digit n else longer

unfoldable pub decimal : ℕ → String
unfolding decimal_fuel digit
decimal n = decimal_fuel (n + 1) n

-- `? GLOB '[0-9]*'`.
begins_digit : String → Bool
begins_digit String.[] = false
begins_digit (String.◌∷◌ c s) = let n = code c in leb 48 n && leb n 57

-- WHERE name = ? OR (CAST(id AS TEXT) = ? AND ? GLOB '[0-9]*').
unfoldable pub answers_to : String → Host → Bool
unfolding begins_digit decimal
answers_to ref h = str_eq h.name ref || (str_eq (decimal h.id) ref && begins_digit ref)

-- The first row, in the order of the rowids, that answers.
unfoldable pub first_answering : String → List Host → Option Host
unfolding answers_to
first_answering ref [] = none
first_answering ref (h ∷ hs) = if answers_to ref h then some h else first_answering ref hs

-- `Store.Host`: a host by name or numeric id.
unfoldable pub resolve : String → List Host → Option Host
unfolding trim_space first_answering
resolve ref hosts = let r = trim_space ref in if str_eq r "" then none else first_answering r hosts

decimal_test : decimal 1207 ≡ "1207"
unfolding decimal
decimal_test = refl
