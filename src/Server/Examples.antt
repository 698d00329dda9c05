-- ===== src/Server/Examples.antt =====
-- Tests of the sign-in gate, and each theorem at a concrete state.
use homedash.Prelude.{ℕ, String, true, false, some, none, List, [], ◌∷◌, ◌≡◌, refl}
use homedash.Prelude.Text.{has_prefix, cut_prefix, fields, is_space, digits}
use homedash.Accounts.{Db, User, session_user, user_by_id}
use homedash.Accounts.Tokens.{token_role}
use homedash.Server.{
  Caller, Call, put_role, remove_user, Sender, bad_request, not_signed_in, after_bearer, bearer,
  session_token, token_name, put_text, person, script, or_else, current_user, viewer_may_post,
  is_open, judge, guard, method_of, path_of, request_of, answer, handle, handle_role, admins, serve,
}
use homedash.Hosts.{online, mismatch}
use homedash.Server.Health.{
  Facts, bad, checks, report_state, worst_from, raised, scan_memory, read_memory, proc_kv,
  cut_colon, parse_uint, pct_state, export_state, hosts_state, tasks_state, value_of, memory_check,
  load_check, disk_check, agent_state, vault_state, space_state,
}
use homedash.Server.Guard.{by_role, serve-by_role}
use homedash.Server.Roles.{distinct_users, has_admin}
use homedash.Server.Admins.{run, run-Sound, script_removes_last}

abbrev as_is : String → String
as_is s = s

abbrev ada : User
ada = record { id = "u1"; name = "ada"; role = "admin"; created = 0 }

abbrev house : Db
house = record {
  users = ada ∷ record { id = "u2"; name = "bob"; role = "viewer"; created = 0 } ∷ [];
  credentials = [];
  sessions =
      record { token = "sa"; user_id = "u1"; expires = 100 }
      ∷ record { token = "sb"; user_id = "u2"; expires = 100 }
      ∷ [];
  invites = [];
  tokens = record { hash = "hd_1"; name = "ci"; role = "admin" } ∷ [];
}

abbrev alone : Db
alone = record house { users = ada ∷ [] }

abbrev by_ada : Sender
by_ada = record { cookie = "sa"; authorization = "" }

abbrev by_bob : Sender
by_bob = record { cookie = ""; authorization = "Bearer sb" }

abbrev by_script : Sender
by_script = record { cookie = ""; authorization = "Bearer hd_1" }

nobody_test :
    (serve as_is 1 (record { cookie = ""; authorization = "" }) (remove_user "bob") house).1
    ≡ not_signed_in
unfolding serve guard answer judge is_open request_of path_of method_of put_text current_user
    session_token bearer after_bearer has_prefix cut_prefix or_else person script
nobody_test = refl

last_admin_test : (serve as_is 1 by_ada (put_role "ada" (some "viewer")) house).1 ≡ bad_request
unfolding serve guard answer judge is_open request_of path_of method_of put_text current_user
    session_token bearer after_bearer has_prefix cut_prefix or_else person script session_user
    user_by_id viewer_may_post handle handle_role admins
last_admin_test = refl

open_test : is_open house "/api/auth/login/begin" ≡ true
unfolding is_open has_prefix cut_prefix
open_test = refl

serve-by_role_example :
    serve as_is 1 by_bob (remove_user "ada") house
    ≡ by_role as_is 1
        (remove_user "ada")
        house
        (current_user as_is 1 (request_of by_bob (remove_user "ada")) house)
serve-by_role_example = serve-by_role as_is 1 by_bob (remove_user "ada") house

abbrev calls : List (ℕ × Sender × Call)
calls =
    (1, by_ada, put_role "bob" (some "admin"))
    ∷ (2, by_bob, remove_user "ada")
    ∷ (3, by_bob, put_role "bob" (some "viewer"))
    ∷ []

run-Sound_example :
    (distinct_users (run as_is calls house).users ≡ true)
    × (has_admin (run as_is calls house).users ≡ true)
unfolding bearer after_bearer request_of has_prefix cut_prefix
run-Sound_example = run-Sound as_is calls house (refl, (refl, (refl, tt))) (refl, refl)

abbrev ci : Caller
ci = record { id = none; name = "token:ci"; role = "admin" }

script_removes_last_example :
    ((serve as_is 1 by_script (remove_user "ada") alone).0.users ≡ [])
    × (is_open (serve as_is 1 by_script (remove_user "ada") alone).0 "/api/backup/restore" ≡ true)
unfolding current_user session_token bearer after_bearer request_of path_of method_of put_text
    has_prefix cut_prefix or_else person script token_name token_role session_user
script_removes_last_example = script_removes_last as_is 1 by_script alone ada ci refl refl refl refl

abbrev the_facts : Facts
the_facts = record {
  mem_total = 16_000;
  mem_used = 4_000;
  cores = 8;
  over_load = true;
  disk_size = 100;
  disk_free = 50;
  disk_limit = 90;
  agent_ready = true;
  install_failed = false;
  vault_runs = true;
  export_age = some 60;
  hosts = some (online ∷ mismatch ∷ []);
  tasks = some [];
  joined = false;
  connected = 0;
  found = 0;
}

abbrev meminfo : List String
meminfo = "MemTotal:       100 kB" ∷ "MemFree:   7 kB" ∷ "MemAvailable:  40 kB" ∷ []

memory_test : read_memory meminfo ≡ (102_400, 61_440)
unfolding read_memory scan_memory proc_kv cut_colon value_of parse_uint fields is_space digits
memory_test = refl

health_test : report_state the_facts ≡ bad
unfolding report_state checks memory_check load_check disk_check agent_state vault_state
    export_state hosts_state tasks_state space_state pct_state worst_from raised
health_test = refl
