-- ===== src/Pool/Examples.antt =====
-- The router at concrete inputs: two machines, one of them serving.
use Prim.Native.String
use mathlib.Core.Option.{Option}
use homedash.Prelude.{ℕ, String, ◌≡◌, refl, Bool, true, false, none, some, List, [], ◌∷◌, arith}
use homedash.Hosts.{Host, Status}
use homedash.Pool.{Pool, Home, fresh}
use homedash.Pool.Pick.{World}
use homedash.Pool.Place.{Request, Attempt, answers, place}
use homedash.Pool.Place.Turn.{place_stays_local, is_local_only}
use homedash.Pool.Place.Ends.{place_ends, is_ended}
use homedash.Pool.Place.Queue.{place-queued}
use homedash.Pool.Homes.{conversation_keys, home, remember, lookup}
use homedash.Pool.Homes.Kept.{remember_all}
use homedash.Pool.Homes.Followup.{home_of_next_turn}
use homedash.Prelude.Marks.{distinct}
use homedash.Pool.Meter.{Counts, read_all, fresh_meter}
use homedash.Pool.Meter.Lines.{split_lines, count_lines, read_all-count_lines}
use homedash.Pool.Exclusion.{Event, asks, ends, queues, run, one_answer_per_machine}

abbrev machine : ℕ → String → Host
machine id name = record {
  id = id;
  name = name;
  addr = "10.0.0.1";
  status = Status.online;
  agent_model = "";
  mem_total = 0;
  agent = none;
  ollama = true;
}

abbrev machines : List Host
machines = machine 1 "attic" ∷ machine 2 "cellar" ∷ []

abbrev world : World
world = record {
  now = 100;
  hosts = some machines;
  disabled = λ id. false;
  tags = λ id. some ("llama:latest" ∷ []);
}

abbrev one_busy : Pool
one_busy = record { busy = 1 ∷ []; homes = []; queued = 0 }

abbrev all_busy : Pool
all_busy = record { busy = 2 ∷ 1 ∷ []; homes = []; queued = 3 }

abbrev marked_local : Request
marked_local = record {
  path = "/api/chat";
  model = "llama";
  messages = "hello" ∷ [];
  local_only = true;
  has_peers = true;
}

abbrev pass : Bool → Attempt
pass late = record {
  world = world;
  home_peer = answers "far";
  peer = answers "far";
  others = λ p. p;
  depth = 8;
  expired = late;
  gone = false;
}

abbrev two_passes : List Attempt
two_passes = pass false ∷ pass true ∷ []

abbrev joined : List String → String
joined [] = ""
joined (m ∷ ms) = String.◌++◌ (String.◌++◌ m "|") (joined ms)

place_stays_local_example : is_local_only (place joined marked_local two_passes all_busy).0 ≡ true
place_stays_local_example = place_stays_local joined marked_local two_passes all_busy refl

place_ends_example : is_ended (place joined marked_local two_passes all_busy).0 ≡ true
place_ends_example = place_ends joined marked_local two_passes all_busy refl

place-queued_example : (place joined marked_local two_passes all_busy).1.queued ≡ 3
place-queued_example =
    place-queued joined marked_local two_passes all_busy ((λ p. refl), ((λ p. refl), tt))
      (place_ends joined marked_local two_passes all_busy refl)

abbrev went_to : Home
went_to = record { host_id = 2; peer = ""; at = 100 }

-- Another conversation, in between.
abbrev another : List (ℕ × String × Home)
another = (150, "else", record { host_id = 1; peer = ""; at = 150 }) ∷ []

home_of_next_turn_example :
    home 200
      (conversation_keys joined ("hello" ∷ "hi there" ∷ "and now?" ∷ [])).1
      (remember_all another
        (remember 100 (conversation_keys joined ("hello" ∷ [])).0 went_to one_busy)).homes
    ≡ some went_to
unfolding lookup
home_of_next_turn_example =
    home_of_next_turn joined "hello" [] "hi there" "and now?" 100 200 went_to one_busy another refl
      (omega arith) refl refl ((omega arith, refl, refl), tt)

abbrev evening : List Event
evening =
    asks world "llama"
    ∷ asks world "llama"
    ∷ queues 8
    ∷ ends 120 "k" true (machine 1 "attic")
    ∷ asks world "llama"
    ∷ []

one_answer_per_machine_example :
    ((run evening (fresh, [])).0.busy ≡ (run evening (fresh, [])).1)
    × (distinct (run evening (fresh, [])).1 ≡ true)
one_answer_per_machine_example = one_answer_per_machine evening

abbrev no_counts : List ℕ → Option Counts
no_counts line = none

read_all-count_lines_example :
    (read_all no_counts fresh_meter ((123 ∷ []) ∷ (125 ∷ 10 ∷ []) ∷ [])).totals
    ≡ count_lines no_counts (split_lines (123 ∷ 125 ∷ 10 ∷ [])) (0, 0)
read_all-count_lines_example = read_all-count_lines no_counts ((123 ∷ []) ∷ (125 ∷ 10 ∷ []) ∷ [])
