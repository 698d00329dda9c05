-- ===== src/Fleet/Once.antt =====
-- hub/internal/fleet/fleet.go: a code enrolls one machine.
use homedash.Prelude.{
  ℕ, suc, ◌+◌, ◌≤◌, ◌≡◌, refl, ap, String, Bool, true, false, not, ◌||◌, Option, none, some, List,
  [], ◌∷◌, ◌++◌, if◌then◌else◌, str_eq, if-either, any, length, length-append, arith,
}
use homedash.Fleet.{
  EnrollCode, Enrolled, Registry, Report, next_host, use_code, add_host, machine_of, enrolled,
  spend, report_code, report, live_code,
}

-- The codes that nobody has used.
abbrev pub unused : List EnrollCode → ℕ
unused [] = 0
unused (c ∷ cs) = if c.used then unused cs else suc (unused cs)

abbrev spending : Bool → ℕ
spending true = 1
spending false = 0

unused-use_code :
    (now : ℕ) (code : String) (cs : List EnrollCode)
    → unused (use_code now code cs).1 + spending (use_code now code cs).0 ≡ unused cs
unfolding use_code
unused-use_code now code [] = omega arith
unused-use_code now code (c ∷ cs) = let i = unused-use_code now code cs in ground arith

-- The machines and the unused codes.
abbrev credit : Registry → ℕ
credit s = length s.hosts + unused s.codes

if-either-known {ℓ κ} :
    {A : Type ℓ} (P : A → Type κ) (b : Bool) (x y : A)
    → (b ≡ true → P x)
    → (b ≡ false → P y)
    → P (if b then x else y)
if-either-known P true x y f g = f refl
if-either-known P false x y f g = g refl

add-length :
    (taken : Bool) (hs : List Enrolled) (h : Enrolled) (added : List Enrolled)
    → (if taken then none else some (hs ++ h ∷ [])) ≡ some added
    → length added ≡ suc (length hs)
add-length true hs h added e = ground arith
add-length false hs h added e = let l = length-append hs (h ∷ []) in ground arith

add_host-length :
    (h : Enrolled) (hs added : List Enrolled)
    → add_host h hs ≡ some added
    → length added ≡ suc (length hs)
unfolding add_host
add_host-length h hs added e =
    add-length (any (λ x. str_eq x.name h.name) hs) hs (record h { id = next_host hs }) added e

enrolled-credit :
    (name : String) (s : Registry) (o : Option (List Enrolled))
    → ((added : List Enrolled) → o ≡ some added → length added ≡ suc (length s.hosts))
    → credit (enrolled name s o).1 ≤ suc (credit s)
enrolled-credit name s none f = omega arith
enrolled-credit name s (some added) f = omega (arith, f added refl)

spend-credit :
    (now : ℕ) (ip : String) (c : EnrollCode) (r : Report) (s : Registry)
    → credit (spend now ip c r s).1 ≤ credit s
unfolding spend
spend-credit now ip c r s =
    let m = machine_of c ip r s.hosts in
    let grown =
      enrolled-credit c.name (record s { codes = (use_code now c.code s.codes).1 })
        (add_host m s.hosts) (add_host-length m s.hosts) in
    let left = unused-use_code now c.code s.codes in
    let branches = if-either-known (λ x. credit x.1 ≤ credit s) (use_code now c.code s.codes).0 in
    branches
      (enrolled c.name (record s { codes = (use_code now c.code s.codes).1 }) (add_host m s.hosts))
      (false, record s { codes = (use_code now c.code s.codes).1 })
      (λ e. let one = ap spending e in omega (arith, grown, left, one)) (λ e. omega (arith, left))

report-credit :
    (key_parses : String → Bool) (now : ℕ) (ip : String) (body : Option Report)
    (o : Option EnrollCode) (s : Registry)
    → credit (report_code key_parses now ip body o s).1 ≤ credit s
report-credit key_parses now ip body none s = omega arith
report-credit key_parses now ip none (some c) s = omega arith
report-credit key_parses now ip (some r) (some c) s =
    if-either (λ x. credit x.1 ≤ credit s) (c.is_mobile || not (key_parses r.host_key)) (false, s)
      (spend now ip c r s) (omega arith) (spend-credit now ip c r s)

-- A report as it comes in: when, with which code, from where, and what it says.
pub record Call : Type 0 where
  pub now : ℕ
  pub code : String
  pub ip : String
  pub body : Option Report

unfoldable pub reports : (String → Bool) → List Call → Registry → Registry
reports key_parses [] s = s
reports key_parses (c ∷ cs) s =
    reports key_parses cs (report key_parses c.now c.code c.ip c.body s).1

-- Whatever reports come in, with whatever codes and at whatever times, the machines and the unused codes
-- together do not grow in number: each machine that is added has used up a code.
pub reports-unused :
    (key_parses : String → Bool) (cs : List Call) (s : Registry)
    → length (reports key_parses cs s).hosts + unused (reports key_parses cs s).codes
      ≤ length s.hosts + unused s.codes
unfolding reports report
reports-unused key_parses [] s = omega arith
reports-unused key_parses (c ∷ cs) s = omega (
  arith,
  reports-unused key_parses cs (report key_parses c.now c.code c.ip c.body s).1,
  report-credit key_parses c.now c.ip c.body (live_code c.now c.code s.codes) s,
)
