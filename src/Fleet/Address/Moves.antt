-- ===== src/Fleet/Address/Moves.antt =====
-- SetAddress of hub/internal/fleet/address.go: when a host's row takes another address.
use homedash.Prelude.{
  ℕ, String, Bool, true, Option, none, some, List, [], ◌∷◌, str_eq, if◌then◌else◌, any, ◌≡◌, ◌⊎◌,
  refl, arith, if-either, inl, inr,
}
use homedash.Fleet.Address.{
  Address, Ip, Cidr, Checked, valid, refused, panics, validate, Try, no_answer, other_key, broken,
  ran, Outcome, changed, fails, crashed, exit_zero, Launch, confirm_tries, confirm_address, moved,
  launched, launch_address, set_checked, set_address, want_of,
}

confirm-any : (tries : List Try) → confirm_tries tries ≡ changed → any exit_zero tries ≡ true
unfolding confirm_tries
confirm-any [] h = cc
confirm-any (no_answer ∷ ts) h = confirm-any ts h
confirm-any (other_key ∷ ts) h = cc
confirm-any (broken ∷ ts) h = confirm-any ts h
confirm-any (ran code ∷ ts) h = let i = confirm-any ts in ground arith

-- The row stays, or it takes an address on a change that a script on the machine confirmed.
abbrev pub MovedRightly : String → String → List Try → String × Outcome → Type 0
MovedRightly addr want tries (after, o) =
    (after ≡ addr) ⊎ ((after ≡ want) × (o ≡ changed) × (any exit_zero tries ≡ true))

moved-rightly :
    (saves : Bool) (addr want : String) (tries : List Try) (o : Outcome)
    → (o ≡ changed → any exit_zero tries ≡ true)
    → MovedRightly addr want tries (moved saves addr want o)
unfolding moved
moved-rightly saves addr want tries (fails e) k = inl refl
moved-rightly saves addr want tries crashed k = inl refl
moved-rightly saves addr want tries changed k =
    if-either (MovedRightly addr want tries) (str_eq want addr) (addr, changed)
      (if saves then (want, changed) else (addr, fails "the row was not written")) (inl refl)
      (if-either (MovedRightly addr want tries) saves (want, changed)
        (addr, fails "the row was not written") (inr (refl, refl, k refl)) (inl refl))

launched-rightly :
    (saves : Bool) (addr want : String) (tries : String → List Try) (o : Option String)
    → MovedRightly addr want (tries want) (launched saves addr want tries o)
unfolding launched confirm_address
launched-rightly saves addr want tries (some e) = inl refl
launched-rightly saves addr want tries none =
    moved-rightly saves addr want (tries want) (confirm_tries (tries want))
      (confirm-any (tries want))

module _ (parse_ip : String → Option Ip) (parse_cidr : String → Option Cidr)
    (show_ip : ℕ → String) where
  -- The row as a change leaves it, where Validate takes the address as `v`: what confirms it is a try
  -- at the address asked for.
  abbrev pub RightlyFor : String → (String → List Try) → Checked → String × Outcome → Type 0
  RightlyFor addr tries (valid v) r =
      let want = want_of parse_ip parse_cidr show_ip addr v in MovedRightly addr want (tries want) r
  RightlyFor addr tries (refused e) r = r ≡ (addr, fails e)
  RightlyFor addr tries panics r = r ≡ (addr, crashed)

  checked-rightly :
      (saves : Bool) (addr : String) (launch : Launch) (tries : String → List Try) (c : Checked)
      → RightlyFor addr tries c (set_checked parse_ip parse_cidr show_ip saves addr launch tries c)
  unfolding set_checked
  checked-rightly saves addr launch tries (valid v) =
      launched-rightly saves addr (want_of parse_ip parse_cidr show_ip addr v) tries
        (launch_address launch)
  checked-rightly saves addr launch tries (refused e) = refl
  checked-rightly saves addr launch tries panics = refl

  -- SetAddress leaves the address in the host's row, except where Validate took the address and, at
  -- the address asked for, a try with the machine's key ran the confirmation to its end: then it is
  -- the address asked for. An address that Validate refuses is an error with its words.
  pub set_address-RightlyFor :
      (saves : Bool) (addr : String) (launch : Launch) (tries : String → List Try) (a : Address)
      → RightlyFor addr tries
          (validate parse_ip parse_cidr a)
          (set_address parse_ip parse_cidr show_ip saves addr launch tries a)
  unfolding set_address
  set_address-RightlyFor saves addr launch tries a =
      checked-rightly saves addr launch tries (validate parse_ip parse_cidr a)
