-- ===== src/Settings.antt =====
-- The settings table read as numbers and switches: `settingInt` of the agent, `setting` of the pool,
-- `settingInt` and `settingBool` of the peers. A missing key reads as the empty text.
use homedash.Prelude.{
  ℕ, zero, suc, ◌<◌, String, ◌≡◌, refl, Bool, ◌||◌, Option, none, some, arith, str_eq,
}
use homedash.Prelude.Int.{ℤ, pos, negsuc}
use homedash.Prelude.Text.{trim_space, atoi}

abbrev pub Settings : Type 0
Settings = String → String

abbrev positive_or : ℕ → Option ℤ → ℕ
positive_or def (some (pos (suc n))) = suc n
positive_or def (some (pos zero)) = def
positive_or def (some (negsuc n)) = def
positive_or def none = def

abbrev natural_or : ℕ → Option ℤ → ℕ
natural_or def (some (pos n)) = n
natural_or def (some (negsuc n)) = def
natural_or def none = def

-- A value that is no positive number reads as the default.
unfoldable pub setting_int : Settings → String → ℕ → ℕ
setting_int setting key def = positive_or def (atoi (trim_space (setting key)))

-- The peers' reading takes 0 too.
unfoldable pub setting_nat : Settings → String → ℕ → ℕ
setting_nat setting key def = natural_or def (atoi (trim_space (setting key)))

unfoldable pub setting_bool : Settings → String → Bool
setting_bool setting key =
    str_eq (setting key) "1" || str_eq (setting key) "true" || str_eq (setting key) "on"

positive_or-pos : (def : ℕ) (o : Option ℤ) → 0 < def → 0 < positive_or def o
positive_or-pos def (some (pos (suc n))) h = omega arith
positive_or-pos def (some (pos zero)) h = h
positive_or-pos def (some (negsuc n)) h = h
positive_or-pos def none h = h

pub setting_int-pos :
    (setting : Settings) (key : String) (def : ℕ) → 0 < def → 0 < setting_int setting key def
unfolding setting_int
setting_int-pos setting key def h = positive_or-pos def _ h

setting_int_test : setting_int (λ _. " 7\n") "jobs.timeout" 1200 ≡ 7
unfolding setting_int trim_space atoi
setting_int_test = refl
