-- ===== src/Gate/Knowledge.antt =====
-- hub/internal/gate/gate.go: what the gate knows of a machine's disks only lets more through.
use homedash.Prelude.{
  ◌≡◌, refl, String, Bool, true, false, Option, none, some, List, [], ◌∷◌, if◌then◌else◌, arith,
}
use homedash.Gate.{check_on, check, check_segment, check_words, first_reason, strip, program}
use homedash.Prelude.Text.{fields}
use homedash.Gate.Words.{is_fork_bomb, redirects_to_ssh, dev_writes, segments}
use homedash.Gate.Rules.{or_else, system_device, is_disk_tool, rules}

or_else-none : (a b : Option String) → or_else a b ≡ none → (a ≡ none) × (b ≡ none)
or_else-none none b e = (refl, e)
or_else-none (some why) b e = ground arith

none-or_else : (a b : Option String) → a ≡ none → b ≡ none → or_else a b ≡ none
none-or_else a b e f = ground arith

system_device-known :
    (w : String) (system : List String)
    → system_device w none ≡ none
    → system_device w (some system) ≡ none
unfolding system_device
system_device-known w system e = ground arith

first_reason-known :
    (p q : String → Option String)
    → ((w : String) → p w ≡ none → q w ≡ none)
    → (ws : List String) → first_reason p ws ≡ none
    → first_reason q ws ≡ none
unfolding first_reason
first_reason-known p q h [] e = refl
first_reason-known p q h (w ∷ ws) e =
    let f = or_else-none (p w) (first_reason p ws) e in
    none-or_else (q w) (first_reason q ws) (h w f.0) (first_reason-known p q h ws f.1)

if-known :
    (b : Bool) (x y : Option String)
    → (x ≡ none → y ≡ none)
    → (if b then x else none) ≡ none
    → (if b then y else none) ≡ none
if-known true x y h e = h e
if-known false x y h e = refl

check_words-known :
    (system : List String) (ws : List String)
    → check_words none ws ≡ none
    → check_words (some system) ws ≡ none
unfolding check_words
check_words-known system [] e = refl
check_words-known system (w ∷ args) e =
    let f =
      or_else-none (rules (program w) args)
        (if is_disk_tool (program w) then first_reason (λ x. system_device x none) args else none)
        e in
    none-or_else (rules (program w) args)
      (if is_disk_tool (program w)
        then first_reason (λ x. system_device x (some system)) args
        else none)
      f.0
      (if-known (is_disk_tool (program w)) (first_reason (λ x. system_device x none) args)
        (first_reason (λ x. system_device x (some system)) args)
        (first_reason-known (λ x. system_device x none) (λ x. system_device x (some system))
          (λ x. system_device-known x system) args)
        f.1)

check_segment-known :
    (system : List String) (seg : String)
    → check_segment none seg ≡ none
    → check_segment (some system) seg ≡ none
unfolding check_segment
check_segment-known system seg e = check_words-known system (strip (fields seg)) e

guarded-known :
    (b : Bool) (why : String) (x y : Option String)
    → (x ≡ none → y ≡ none)
    → (if b then some why else x) ≡ none
    → (if b then some why else y) ≡ none
guarded-known true why x y h e = ground arith
guarded-known false why x y h e = h e

or_else-known :
    (a b c d : Option String)
    → (a ≡ none → c ≡ none)
    → (b ≡ none → d ≡ none)
    → or_else a b ≡ none
    → or_else c d ≡ none
or_else-known a b c d h k e = let f = or_else-none a b e in none-or_else c d (h f.0) (k f.1)

-- What the gate lets through without knowing the machine, it lets through on every machine: telling
-- it which disks carry the system never adds a refusal.
pub check_on-known :
    (command : String) (system : List String)
    → check command ≡ none
    → check_on (some system) command ≡ none
unfolding check_on
check_on-known command system e =
    let p = λ (x : String). system_device x none in
    let q = λ (x : String). system_device x (some system) in
    let writes = dev_writes command in
    let parts = segments command in
    guarded-known (is_fork_bomb command) "a fork bomb" _ _
      (guarded-known (redirects_to_ssh command) "editing SSH config by hand" _ _ (
        or_else-known (first_reason p writes) (first_reason (check_segment none) parts)
          (first_reason q writes) (first_reason (check_segment (some system)) parts)
          (first_reason-known p q (λ x. system_device-known x system) writes)
          (first_reason-known (check_segment none) (check_segment (some system))
            (check_segment-known system) parts)))
      e
