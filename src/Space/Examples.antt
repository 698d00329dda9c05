-- ===== src/Space/Examples.antt =====
-- A peer's job at concrete inputs.
use homedash.Prelude.{
  String, ◌≡◌, refl, true, ◌&&◌, ◌||◌, ◌-◌, ltb, none, some, List, [], ◌∷◌, ◌≤◌, str_eq, str_eq_iff,
  if◌then◌else◌, any, length, Bool, false, arith,
}
use homedash.Prelude.Int.{ℤ, pos, negsuc, pred_ℤ}
use homedash.Settings.{setting_bool}
use homedash.Pool.Pick.{with_latest}
use homedash.Space.{Asked, JobHeader, PeerRow, Counters, admit, end_job, leave, attach}
use homedash.Space.Admission.{is_accepted, row_passes, has_room, one_more, admit_exactly}
use homedash.Space.Tables.{Peer, Front, Tables, find_peer}
use homedash.Space.Tables.Approval.{
  Event as Decision, offers, sets, sets_front, happen, standing, happen-ruled,
}
use homedash.Space.Sending.{
  Offer, Offers, Answer, takes, refuses, is_approved, open_offers, place_peer,
}
use homedash.Space.Sending.Approved.{accepts, is_placed, place_peer-cong, place_peer-is_placed}
use homedash.Space.Services.{Wanted, ceiling, share}
use homedash.Space.Services.Share.{times}
use homedash.Space.Services.Limits.{Event as Traffic, asks, ends, run, joined, run-limits}
use homedash.Space.Counting.{reading, leave_during_job}

abbrev prompt : JobHeader
prompt = record { model = "llama"; path = "/api/chat"; size = pos 900 }

abbrev friend : PeerRow
friend = record { approved = true; max_concurrent = pos 1; per_hour = pos 20 }

abbrev asked : Asked
asked = record {
  settings = λ key. if str_eq key "space.serve" then "1" else "";
  known = true;
  header = some prompt;
  peer = some friend;
  served = 3;
  served_all = 5;
  models = "llama" ∷ [];
}

abbrev idle : String → ℤ
idle peer = pos 0

abbrev counters : Counters
counters = record { serving = some idle; total = pos 0 }

admit_exactly_example :
    let taken =
      true
      && (setting_bool asked.settings "space.serve"
          && (true && (row_passes asked prompt friend && has_room asked friend "far" counters))) in
    (is_accepted (admit asked "far" counters).0 ≡ taken)
    × ((admit asked "far" counters).1 ≡ (if taken then one_more "far" idle (pos 0) else counters))
admit_exactly_example = admit_exactly asked "far" prompt friend idle (pos 0) refl refl

leave_during_job_example :
    (reading "far" (end_job "far" (leave counters)) ≡ none)
    × (reading "far" (end_job "far" (attach (leave counters))) ≡ some (negsuc 0, pred_ℤ (pos 0)))
leave_during_job_example = leave_during_job "far" counters

abbrev peer_row : String → Bool → Peer
peer_row id approved = record {
  id = id;
  name = "cellar";
  approved = approved;
  max_concurrent = pos 1;
  per_hour = pos 20;
}

abbrev space_tables : Tables
space_tables = record {
  peers = peer_row "far" true ∷ peer_row "new" false ∷ [];
  fronts = [];
  services = [];
  jobs = [];
}

abbrev no_tables : Tables
no_tables = record { peers = []; fronts = []; services = []; jobs = [] }

abbrev front_set : Front
front_set = record { peer_id = "far"; service = "photos"; approved = true; hostname = "" }

abbrev history : List Decision
history =
    offers (peer_row "far" false) ("photos" ∷ [])
    ∷ sets "far" true (pos 2) (pos 20)
    ∷ sets_front front_set
    ∷ offers (peer_row "far" false) ("photos" ∷ "music" ∷ [])
    ∷ []

happen-ruled_example : standing (find_peer "far" (happen history no_tables).peers) ≡ some true
unfolding find_peer
happen-ruled_example = happen-ruled "far" history no_tables

abbrev offer_now : Offer
offer_now = record { name = "cellar"; models = "llama" ∷ []; free = true; services = []; at = 1000 }

abbrev two_offers : Offers
two_offers = some (("new", offer_now) ∷ ("far", offer_now) ∷ [])

abbrev first_come : String × Offer → String × Offer → Bool
first_come a b = false

abbrev all_take : String → Answer
all_take id = takes

abbrev far_takes : String → Answer
far_takes id = if str_eq id "far" then takes else refuses "busy"

abbrev far_tables : Tables
far_tables = record { peers = peer_row "far" true ∷ []; fronts = []; services = []; jobs = [] }

same_answer :
    (id : String) → is_approved (find_peer id far_tables.peers) ≡ true → all_take id ≡ far_takes id
unfolding find_peer
same_answer id h = let e = str_eq_iff "far" id in let f = str_eq_iff id "far" in ground arith

place_peer-cong_example :
    place_peer 2000 "llama" first_come all_take two_offers far_tables
    ≡ place_peer 2000 "llama" first_come far_takes two_offers far_tables
place_peer-cong_example =
    place_peer-cong 2000 "llama" first_come all_take far_takes two_offers far_tables same_answer

place_peer-is_placed_example :
    is_placed (place_peer 2000 "llama" first_come far_takes two_offers space_tables).0
    ≡ any
        (λ c.
          ltb (2000 - c.1.at) 180000
          && (c.1.free
              && (any (λ m. str_eq m "llama" || str_eq m (with_latest "llama")) c.1.models
                  && (is_approved (find_peer c.0 space_tables.peers) && accepts (far_takes c.0)))))
        (open_offers two_offers)
place_peer-is_placed_example =
    place_peer-is_placed 2000 "llama" first_come far_takes two_offers space_tables

abbrev wanted : Wanted
wanted = record {
  settings = λ key. if str_eq key "space.peer_connections" then "1" else "";
  known = true;
  readable = true;
  peer = some (peer_row "far" true);
  service = some (record { host = "attic"; port = 8080; peers = "far" ∷ [] });
  host_online = true;
  answers = true;
}

abbrev traffic : List Traffic
traffic = asks wanted "far" ∷ asks wanted "far" ∷ ends "far" ∷ []

run-limits_example :
    ((run wanted.settings traffic (joined, [])).0.total
      ≡ pos (length (run wanted.settings traffic (joined, [])).1))
    × (length (run wanted.settings traffic (joined, [])).1 ≤ ceiling wanted.settings)
    × (times "far" (run wanted.settings traffic (joined, [])).1 ≤ share wanted.settings)
run-limits_example = run-limits wanted.settings traffic "far"
