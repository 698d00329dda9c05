-- ===== src/Apps/Careful.antt =====
-- Deploy of hub/internal/apps/apps.go: what its steps are, on every path through it.
use homedash.Prelude.{
  Option, none, some, String, Bool, true, false, not, ◌&&◌, ◌||◌, List, any, all, ◌≡◌,
}
use homedash.Prelude.Text.{trim_space, is_empty}
use homedash.Apps.Inside.{is_inside}
use homedash.Apps.{
  Step, wrote_setup, wrote_compose, wrote_env, brought_up, took_down, noted_rebuild, notified,
  World, Order, Outcome, deployed, up_failed, is_online, is_stack_name, safe_rel_path, is_refused,
}

-- What the hub writes in a step, as a path from the stack's directory.
abbrev pub written : Step → Option String
written (wrote_setup path) = some path
written wrote_compose = some "compose.yml"
written wrote_env = some ".env"
written _ = none

abbrev pub is_safe : Step → Bool
is_safe s = elim (written s) [ none ↦ true | some path ↦ is_inside path ]

-- The compose text of the order is written, or the hub calls docker compose.
abbrev pub is_launch : Step → Bool
is_launch wrote_compose = true
is_launch brought_up = true
is_launch took_down = true
is_launch _ = false

abbrev pub is_note : Step → Bool
is_note noted_rebuild = true
is_note notified = true
is_note _ = false

abbrev pub is_removal : Step → Bool
is_removal took_down = true
is_removal _ = false

abbrev pub is_deployed : Outcome → Bool
is_deployed deployed = true
is_deployed _ = false

abbrev pub is_up_failed : Outcome → Bool
is_up_failed up_failed = true
is_up_failed _ = false

-- What holds of the steps and the outcome: `held` is that an agent's file was refused.
pub record Careful (held : Bool) (r : List Step × Outcome) : Type 0 where
  pub paths : all is_safe r.0 ≡ true
  pub launches : held ≡ true → any is_launch r.0 ≡ false
  pub notes : any is_note r.0 ≡ is_deployed r.1
  pub removals : any is_removal r.0 ≡ is_up_failed r.1

-- Steps of the setup alone.
record Quiet (steps : List Step) : Type 0 where
  pub paths : all is_safe steps ≡ true
  pub launches : any is_launch steps ≡ false
  pub notes : any is_note steps ≡ false
  pub removals : any is_removal steps ≡ false

abbrev bad_order : Order → Bool
bad_order o =
    not (is_stack_name o.name)
    || is_empty (trim_space o.compose)
    || any (λ f. not (safe_rel_path f.path)) o.files

module _ (W : World) where
  module _ (o : Order) where
    abbrev pub is_held : Bool
    is_held = is_refused W (W.refusal o.compose) && o.by_agent

    -- Whether Deploy asks anything of the machine at all.
    abbrev pub is_good : Bool
    is_good =
        is_online o.status
        && is_stack_name o.name
        && not (is_empty (trim_space o.compose))
        && not (any (λ f. not (safe_rel_path f.path)) o.files)
