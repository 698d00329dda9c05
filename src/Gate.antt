-- ===== src/Gate.antt =====
-- hub/internal/gate/gate.go: the commands that the hub refuses. `Words` splits a command line, `Rules`
-- has the list; this file has `CheckOn` and `Check`. A refusal is its reason; `none` lets through.
pub mod Words
pub mod Rules
pub mod Knowledge
pub mod Separators
pub mod Examples
use Prim.Native.String
use homedash.Prelude.{
  String, Bool, true, false, ◌||◌, Option, none, some, List, [], ◌∷◌, if◌then◌else◌,
}
use homedash.Prelude.Text.{has_prefix, after_last, fields}
use homedash.Gate.Words.{is_fork_bomb, redirects_to_ssh, dev_writes, segments, is_assignment}
use homedash.Gate.Rules.{or_else, is_one_of, rules, is_disk_tool, system_device}

abbrev pub wrappers : List String
wrappers = "sudo" ∷ "doas" ∷ "nohup" ∷ "env" ∷ "command" ∷ "exec" ∷ "time" ∷ "nice" ∷ []

abbrev pub is_skipped : String → Bool
is_skipped w = is_one_of wrappers w || is_assignment w || has_prefix w "-"

-- The words of a command, from its program on.
unfoldable pub strip : List String → List String
strip [] = []
strip (w ∷ ws) = let rest = strip ws in if is_skipped w then rest else w ∷ ws

-- The first word that has a reason.
unfoldable pub first_reason : (String → Option String) → List String → Option String
first_reason reason [] = none
first_reason reason (w ∷ ws) = or_else (reason w) (first_reason reason ws)

abbrev pub program : String → String
program w = elim (after_last w "/") [ none ↦ w | some name ↦ name ]

unfoldable pub check_words : Option (List String) → List String → Option String
check_words system [] = none
check_words system (w ∷ args) =
    or_else (rules (program w) args)
      (if is_disk_tool (program w) then first_reason (λ x. system_device x system) args else none)

unfoldable pub check_segment : Option (List String) → String → Option String
check_segment system seg = check_words system (strip (fields seg))

-- `CheckOn`; without the machine's devices (none), `Check`.
unfoldable pub check_on : Option (List String) → String → Option String
check_on system command =
    if is_fork_bomb command
    then some "a fork bomb"
    else if redirects_to_ssh command
    then some "editing SSH config by hand"
    else or_else (first_reason (λ x. system_device x system) (dev_writes command))
        (first_reason (check_segment system) (segments command))

abbrev pub check : String → Option String
check = check_on none
