-- ===== src/Space/Sending.antt =====
-- hub/internal/peers/peers.go: the offers of the other hubs, and `Place`, which sends a job to one of
-- them. The score of a peer is a float of its record in the store: which of two candidates comes first
-- is an argument, and so is what a peer answers. Times are milliseconds.
pub mod Approved
use homedash.Prelude.{
  ℕ, suc, ◌+◌, ◌-◌, String, Bool, true, false, not, ◌&&◌, ◌||◌, Option, none, some, List, [], ◌∷◌,
  ◌++◌, ltb, leb, str_eq, str_lt, if◌then◌else◌, any, keep, map,
}
use homedash.Prelude.Int.{ℤ, pos}
use homedash.Settings.{Settings, setting_nat, setting_bool}
use homedash.Sort.{insertion_sort}
use homedash.Space.{contains}
use homedash.Space.Tables.{Peer, PeerJob, Service, Tables, seen_peer, find_peer, record_job}
use homedash.Space.Tables.Approval.{seen_fronts}

pub record Offer : Type 0 where
  pub name : String
  pub models : List String
  pub free : Bool
  pub services : List String
  pub at : ℕ

-- The offers, by the id of the peer; none outside a space.
abbrev pub Offers : Type 0
Offers = Option (List (String × Offer))

-- `p.offers[id] = o`.
abbrev pub put_offer : String → Offer → List (String × Offer) → List (String × Offer)
put_offer id o [] = (id, o) ∷ []
put_offer id o (e ∷ es) =
    let rest = put_offer id o es in if str_eq e.0 id then (id, o) ∷ es else e ∷ rest

abbrev pub put_if : String → Offer → Offers → Offers
put_if id o none = none
put_if id o (some offers) = some (put_offer id o offers)

-- A peer's row as its first offer makes it.
abbrev pub new_peer : Settings → String → Offer → Peer
new_peer settings id o = record {
  id = id;
  name = o.name;
  approved = str_eq (settings "space.unknown") "accept";
  max_concurrent = pos (setting_nat settings "space.default_concurrent" 1);
  per_hour = pos (setting_nat settings "space.default_per_hour" 20);
}

-- `learn`.
unfoldable pub learn : ℕ → Settings → String → Offer → Offers × Tables → Offers × Tables
learn now settings id o (offers, s) = (
  put_if id (record o { at = now }) offers,
  record s {
    peers = seen_peer (new_peer settings id o) s.peers;
    fronts = seen_fronts id o.services s.fronts;
  },
)

-- The services of the store with their peers split, as `published` reads them.
abbrev pub published : String → List (String × List String) → List String
published peer [] = []
published peer (s ∷ ss) =
    let rest = published peer ss in if any (λ x. str_eq x peer) s.1 then s.0 ∷ rest else rest

-- A machine as `Pool.Grid` lists it.
pub record Machine : Type 0 where
  pub online : Bool
  pub enabled : Bool
  pub busy : Bool
  pub models : List String

abbrev pub has_models : List String → Bool
has_models [] = false
has_models (m ∷ ms) = true

abbrev pub is_free : Machine → Bool
is_free m = m.online && (m.enabled && (not m.busy && has_models m.models))

abbrev pub hub_name : Settings → String → String
hub_name settings hostname =
    if str_eq (settings "space.hub_name") "" then hostname else settings "space.hub_name"

-- `offer`: what this hub says of itself to one peer. A grid that cannot be read is the empty one.
unfoldable pub offer :
    ℕ
    → Settings
    → String
    → List String
    → List Machine
    → List (String × List String)
    → String
    → Offer
offer now settings hostname models grid services to = record {
  name = hub_name settings hostname;
  models = if setting_bool settings "space.serve" then models else [];
  free = setting_bool settings "space.serve" && any is_free grid;
  services = published to services;
  at = now;
}

-- `handleOffer`: none is the reset of a stranger; an offer that cannot be read is answered by nothing.
unfoldable pub handle_offer :
    ℕ
    → Settings
    → (Offers × Tables → Offer)
    → Bool
    → String
    → Option Offer
    → Offers × Tables
    → Option (Option Offer) × (Offers × Tables)
handle_offer now settings mine known id o s =
    if known
    then (elim o [
      | none ↦ (some none, s)
      | some theirs ↦
          (some (some (mine (learn now settings id theirs s))), learn now settings id theirs s)
    ])
    else (none, s)

-- Three minutes.
abbrev pub fresh_ms : ℕ
fresh_ms = 180000

abbrev pub is_candidate : ℕ → String → Offer → Bool
is_candidate now model o = ltb (now - o.at) fresh_ms && (o.free && contains o.models model)

abbrev pub open_offers : Offers → List (String × Offer)
open_offers none = []
open_offers (some offers) = offers

abbrev pub is_approved : Option Peer → Bool
is_approved none = false
is_approved (some p) = p.approved

-- The candidates that `Place` asks, before they are put in order.
unfoldable pub candidates : ℕ → String → List Peer → Offers → List (String × Offer)
candidates now model peers offers =
    keep (λ c. is_approved (find_peer c.0 peers))
      (keep (λ c. is_candidate now model c.1) (open_offers offers))

-- What a peer makes of a job: no reply, a refusal, a yes, or a yes and a stream that breaks as the body
-- is sent.
pub data Answer : Type 0 where
  no_reply : String → Answer
  refuses : String → Answer
  takes : Answer
  breaks : String → Answer

-- `send`: the error, if there is one, and the row of a reply.
unfoldable pub send : ℕ → String → String → Answer → List PeerJob → Option String × List PeerJob
send now id model (no_reply why) jobs = (some why, jobs)
send now id model (refuses why) jobs = (some why, (record_job now id false model false why jobs).1)
send now id model takes jobs = (none, (record_job now id false model true "" jobs).1)
send now id model (breaks why) jobs = (some why, (record_job now id false model true "" jobs).1)

-- What `Place` returns: nobody to ask, the peer that took the job, or the last that did not and why.
pub data Placed : Type 0 where
  no_peer : Placed
  placed_at : String → Placed
  refused_by : String → String → Placed

abbrev pub or_go_on :
    String
    → Option String × List PeerJob
    → (Placed → List PeerJob → Placed × List PeerJob)
    → Placed × List PeerJob
or_go_on name (none, jobs) on = (placed_at name, jobs)
or_go_on name (some why, jobs) on = on (refused_by name why) jobs

-- The loop over the candidates, with what it returns if nobody is left.
unfoldable pub try_each :
    ℕ
    → String
    → (String → Answer)
    → List (String × Offer)
    → Placed
    → List PeerJob
    → Placed × List PeerJob
try_each now model ask [] last jobs = (last, jobs)
try_each now model ask (c ∷ cs) last jobs =
    or_go_on c.1.name (send now c.0 model (ask c.0) jobs)
      (λ next rows. try_each now model ask cs next rows)

-- `Place`: `better` compares the scores of two candidates.
unfoldable pub place_peer :
    ℕ
    → String
    → (String × Offer → String × Offer → Bool)
    → (String → Answer)
    → Offers
    → Tables
    → Placed × Tables
place_peer now model better ask offers s =
    let (result, jobs) =
      try_each now model ask (insertion_sort better (candidates now model s.peers offers)) no_peer
        s.jobs in
    (result, record s { jobs = jobs })

abbrev pub is_offered : ℕ → Offer → Bool
is_offered now o = leb (now - o.at) fresh_ms && o.free

abbrev pub add_models : List String → List String → List String
add_models [] seen = seen
add_models (m ∷ ms) seen =
    add_models ms (if any (λ x. str_eq x m) seen then seen else seen ++ m ∷ [])

abbrev pub all_models : List (String × Offer) → List String → List String
all_models [] seen = seen
all_models (e ∷ es) seen = all_models es (add_models e.1.models seen)

-- `Offered`.
unfoldable pub offered : ℕ → Offers → List String
offered now offers =
    insertion_sort str_lt (all_models (keep (λ e. is_offered now e.1) (open_offers offers)) [])
