-- ===== src/Pool/Place.antt =====
-- hub/internal/pool/pool.go: `place`, `proxy` and `tryPeer`. The loop runs over a list of attempts;
-- each attempt names what the code asks of its surroundings: the hosts, what the peers answer, what
-- the other requests did to the pool since the last look, and whether the wait is over.
pub mod Turn
pub mod Ends
pub mod Queue
use homedash.Prelude.{
  ℕ, zero, suc, String, Bool, true, false, not, ◌&&◌, ◌||◌, Option, none, some, List, [], ◌∷◌, ◌==◌,
  str_eq, if◌then◌else◌, any,
}
use homedash.Hosts.{Host}
use homedash.Pool.{Pool, Home, acquire, release, enqueue, dequeue}
use homedash.Pool.Pick.{World, Reason, conversation_home, busy, pool_was_busy, is_busy_reason, pick}
use homedash.Pool.Homes.{conversation_keys, home, remember}

-- What the request says; `has_peers`: the hub is in a space at all.
pub record Request : Type 0 where
  pub path : String
  pub model : String
  pub messages : List String
  pub local_only : Bool
  pub has_peers : Bool

-- Peers.Place and the first read of its stream: nobody was asked; the peer named said no or its
-- stream broke; the peer's answer began to arrive.
pub data PeerAnswer : Type 0 where
  nobody : PeerAnswer
  refused : String → String → PeerAnswer
  answers : String → PeerAnswer

pub record Attempt : Type 0 where
  pub world : World
  pub home_peer : PeerAnswer
  pub peer : PeerAnswer
  pub others : Pool → Pool
  pub depth : ℕ
  pub expired : Bool
  pub gone : Bool

pub data Outcome : Type 0 where
  local : Host → Reason → Outcome
  to_peer : String → Reason → Outcome
  not_found : Reason → Option (String × String) → Outcome
  queue_full : Outcome
  wait_over : Outcome
  client_gone : Outcome
  still_waiting : Outcome

-- JobPaths.
abbrev pub job_path : String → Bool
job_path path =
    any (λ q. str_eq q path)
      ("/api/chat" ∷ "/api/generate" ∷ "/api/embed" ∷ "/api/embeddings" ∷ "/v1/chat/completions"
        ∷ "/v1/completions" ∷ "/v1/embeddings" ∷ [])

abbrev pub may_cross : Request → Bool
may_cross r = r.has_peers && not r.local_only && job_path r.path

-- A turn without messages has no key, and nothing is kept for it.
unfoldable pub remember_turn : ℕ → String → Home → Pool → Pool
remember_turn now key hm p = if str_eq key "" then p else remember now key hm p

unfoldable pub try_peer : ℕ → String → PeerAnswer → Reason → Pool → Option Outcome × Pool
try_peer now key (answers name) why p = (
  some (to_peer name why),
  remember_turn now key (record { host_id = 0; peer = name; at = now }) p,
)
try_peer now key _ why p = (none, p)

-- `peerErr`: the peer that was asked, and its words.
abbrev pub peer_error : PeerAnswer → Option (String × String)
peer_error (refused name words) = some (name, words)
peer_error _ = none

-- One machine answers, or cannot be reached; the release is deferred.
unfoldable pub proxy : ℕ → String → Bool → Host → Pool → Pool
proxy now key reached h p = release h.id (
    if reached then remember_turn now key (record { host_id = h.id; peer = ""; at = now }) p else p)

-- A machine that was got is where the turn goes.
unfoldable pub placed : Reason → Option Host × Pool → Option Outcome × Pool
placed why (none, p) = (none, p)
placed why (some h, p) = (some (local h why), p)

-- 1. The conversation's home.
unfoldable pub ask_home : Bool → Attempt → String → List Host → Home → Pool → Option Outcome × Pool
unfolding try_peer placed
ask_home cross a key hosts hm p =
    if not (str_eq hm.peer "") && cross
    then try_peer a.world.now key a.home_peer conversation_home p
    else if not (hm.host_id == 0)
    then placed conversation_home (acquire hosts a.world.disabled hm.host_id p)
    else (none, p)

abbrev pub known_hosts : World → List Host
known_hosts w = elim w.hosts [ none ↦ [] | some hosts ↦ hosts ]

unfoldable pub at_home : Bool → Attempt → String → Option Home → Pool → Option Outcome × Pool
unfolding ask_home
at_home cross a key none p = (none, p)
at_home cross a key (some hm) p = ask_home cross a key (known_hosts a.world) hm p

unfoldable pub first_home : Bool → Attempt → String → List String → Pool → Option Outcome × Pool
unfolding at_home
first_home cross a key prefixes p = at_home cross a key (home a.world.now prefixes p.homes) p

abbrev pub why_peer : Reason → Reason
why_peer busy = pool_was_busy
why_peer other = other

-- 3. A peer, when there may be one.
unfoldable pub ask_peer : Bool → Attempt → String → Reason → Pool → Option Outcome × Pool
unfolding try_peer
ask_peer false a key why p = (none, p)
ask_peer true a key why p = try_peer a.world.now key a.peer why p

-- 4. The queue; the Boolean says whether this request stands in it.
unfoldable pub wait_turn : Attempt → Bool × Pool → (Option Outcome × Bool) × Pool
wait_turn a (false, p) = ((some queue_full, false), p)
wait_turn a (true, p) =
    if a.expired
    then ((some wait_over, true), p)
    else if a.gone
    then ((some client_gone, true), p)
    else ((none, true), p)

abbrev pub stand : Attempt → Bool → Pool → Bool × Pool
stand a true p = (true, p)
stand a false p = enqueue a.depth p

-- What follows the first two choices: `why` is the reason of `pick`.
unfoldable pub no_machine :
    Bool → Attempt → Bool → Reason → Option Outcome × Pool → (Option Outcome × Bool) × Pool
unfolding wait_turn
no_machine cross a queued why (some out, p) = ((some out, queued), p)
no_machine cross a queued busy (none, p) = wait_turn a (stand a queued p)
no_machine cross a queued why (none, p) =
    ((some (not_found why (if cross then peer_error a.peer else none)), queued), p)

unfoldable pub no_home :
    Bool → Attempt → String → Bool → (Option Host × Reason) × Pool → (Option Outcome × Bool) × Pool
unfolding no_machine ask_peer
no_home cross a key queued ((some h, why), p) = ((some (local h why), queued), p)
no_home cross a key queued ((none, why), p) =
    no_machine cross a queued why (ask_peer cross a key (why_peer why) p)

unfoldable pub after_home :
    Bool → Attempt → String → String → Bool → Option Outcome × Pool → (Option Outcome × Bool) × Pool
unfolding no_home
after_home cross a key model queued (some out, p) = ((some out, queued), p)
after_home cross a key model queued (none, p) = no_home cross a key queued (pick a.world model p)

-- One pass of the loop: none is a pass that goes to sleep.
unfoldable pub attempt :
    Bool → Attempt → String × List String → String → Bool → Pool → (Option Outcome × Bool) × Pool
unfolding after_home first_home
attempt cross a (key, prefixes) model queued p =
    after_home cross a key model queued (first_home cross a key prefixes (a.others p))

-- The deferred dequeue.
abbrev pub leave_queue : Bool → Pool → Pool
leave_queue queued p = if queued then dequeue p else p

-- A pass that ended the request, or the next pass.
unfoldable pub or_next : (Option Outcome × Bool) × Pool → Outcome × Pool → Outcome × Pool
or_next ((none, queued), p) later = later
or_next ((some o, queued), p) later = (o, leave_queue queued p)

unfoldable pub attempts :
    Bool → String × List String → String → List Attempt → Bool → Pool → Outcome × Pool
unfolding attempt or_next
attempts cross keys model [] queued p = (still_waiting, p)
attempts cross keys model (a ∷ rest) queued p =
    let turn = attempt cross a keys model queued p in
    or_next turn (attempts cross keys model rest turn.0.1 turn.1)

unfoldable pub place : (List String → String) → Request → List Attempt → Pool → Outcome × Pool
unfolding attempts
place digest r schedule p =
    attempts (may_cross r) (conversation_keys digest r.messages) r.model schedule false p
