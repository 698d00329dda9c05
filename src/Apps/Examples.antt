-- ===== src/Apps/Examples.antt =====
-- Tests of Deploy, and each theorem at a concrete order.
use homedash.Prelude.{true, false, some, none, [], ◌∷◌, ◌≡◌, refl, str_eq, if◌then◌else◌}
use homedash.Prelude.Text.{has_prefix, cut_prefix, trim_space, trim_left, trim_right, is_space}
use homedash.Hosts.{online}
use homedash.Apps.{
  made_dir, wrote_setup, ran_setup, wrote_compose, brought_up, noted_rebuild, notified, World,
  Order, deployed, gate_refused, safe_rel_path, split_slash, is_stack_name, later_chars,
  is_later_char, is_first_char, within, ran, write_files, run_setup, bring_up, write_env,
  write_compose, compose_gate, after_setup, after_files, after_dir, make_dir, deploy,
}
use homedash.Apps.Careful.{Careful}
use homedash.Apps.Exits.{ends_well, deploy_ignores_exits}

-- A machine where the setup commands exit with 1 and all else goes well.
abbrev failing_setup : World
failing_setup = record {
  run = λ steps s. elim s [ ran_setup c ↦ some 1 | _ ↦ some 0 ];
  write = λ steps s. true;
  compose = λ steps s. true;
  refusal = λ text. if str_eq text "privileged: true" then some "privileged" else none;
}

abbrev wiki : Order
wiki = record {
  status = online;
  name = "wiki";
  compose = "services: {}";
  env = "";
  files = record { path = "conf/app.ini"; content = "x" } ∷ [];
  commands = "mkdir data" ∷ [];
  by_agent = false;
}

abbrev refused : Order
refused = record wiki { compose = "privileged: true"; by_agent = true }

path_test : safe_rel_path "a/../b" ≡ false
unfolding safe_rel_path split_slash has_prefix cut_prefix
path_test = refl

name_test : is_stack_name "wiki-2" ≡ true
unfolding is_stack_name later_chars is_later_char is_first_char within
name_test = refl

setup_test : deploy failing_setup wiki ≡ (
  notified
      ∷ noted_rebuild
      ∷ brought_up
      ∷ wrote_compose
      ∷ ran_setup "mkdir data"
      ∷ wrote_setup "conf/app.ini"
      ∷ made_dir
      ∷ [],
  deployed,
)
unfolding deploy make_dir after_dir after_files after_setup compose_gate write_compose write_env
    bring_up write_files run_setup ran safe_rel_path split_slash has_prefix cut_prefix is_stack_name
    later_chars is_later_char is_first_char within trim_space trim_left trim_right is_space
setup_test = refl

gate_test :
    deploy failing_setup refused
    ≡ (ran_setup "mkdir data" ∷ wrote_setup "conf/app.ini" ∷ made_dir ∷ [], gate_refused)
unfolding deploy make_dir after_dir after_files after_setup compose_gate write_files run_setup ran
    safe_rel_path split_slash has_prefix cut_prefix is_stack_name later_chars is_later_char
    is_first_char within trim_space trim_left trim_right is_space
gate_test = refl

-- The files of a refused agent are written before the gate reads the compose text, compose.yml too.
own_file_test :
    deploy failing_setup (record refused {
      files = record { path = "compose.yml"; content = "privileged: true" } ∷ [];
      commands = [];
    })
    ≡ (wrote_setup "compose.yml" ∷ made_dir ∷ [], gate_refused)
unfolding deploy make_dir after_dir after_files after_setup compose_gate write_files run_setup ran
    safe_rel_path split_slash has_prefix cut_prefix is_stack_name later_chars is_later_char
    is_first_char within trim_space trim_left trim_right is_space
own_file_test = refl

deploy_ignores_exits_example : deploy (ends_well failing_setup) wiki ≡ deploy failing_setup wiki
deploy_ignores_exits_example = deploy_ignores_exits failing_setup wiki
