-- ===== src/Pool/Place/Turn.antt =====
-- hub/internal/pool/pool.go: what one turn's `place` may do. A request that must stay on this hub
-- is never shown to a peer; a pass past the deadline ends the wait; the queue's counter comes back.
use homedash.Prelude.{
  ◌≡◌, refl, not, ◌&&◌, String, Bool, true, false, Option, none, some, List, [], ◌∷◌, arith,
}
use homedash.Hosts.{Host}
use homedash.Pool.{Pool, Home, acquire}
use homedash.Pool.Homes.{conversation_keys, home}
use homedash.Pool.Pick.{Reason, busy, conversation_home, pick}
use homedash.Pool.Place.{
  Request, Attempt, Outcome, to_peer, not_found, job_path, place, at_home, known_hosts, or_next,
  attempts, attempt, after_home, first_home, ask_home, ask_peer, no_machine, no_home, wait_turn,
  stand, placed,
}

-- No peer is in the answer, neither as the place of the job nor as one that said no.
abbrev pub is_local_only : Outcome → Bool
is_local_only (to_peer name why) = false
is_local_only (not_found why (some e)) = false
is_local_only _ = true

abbrev all_local : Option Outcome → Bool
all_local none = true
all_local (some o) = is_local_only o

placed-local : (why : Reason) (got : Option Host × Pool) → all_local (placed why got).0 ≡ true
unfolding placed
placed-local why (none, p) = refl
placed-local why (some h, p) = refl

ask_home-local :
    (a : Attempt) (key : String) (hosts : List Host) (hm : Home) (p : Pool)
    → all_local (ask_home false a key hosts hm p).0 ≡ true
unfolding ask_home
ask_home-local a key hosts hm p =
    let e = placed-local conversation_home (acquire hosts a.world.disabled hm.host_id p) in
    ground arith

at_home-local :
    (a : Attempt) (key : String) (hm : Option Home) (p : Pool)
    → all_local (at_home false a key hm p).0 ≡ true
unfolding at_home
at_home-local a key none p = refl
at_home-local a key (some hm) p = ask_home-local a key (known_hosts a.world) hm p

first_home-local :
    (a : Attempt) (key : String) (prefixes : List String) (p : Pool)
    → all_local (first_home false a key prefixes p).0 ≡ true
unfolding first_home
first_home-local a key prefixes p = at_home-local a key (home a.world.now prefixes p.homes) p

wait_turn-local : (a : Attempt) (r : Bool × Pool) → all_local (wait_turn a r).0.0 ≡ true
unfolding wait_turn
wait_turn-local a (false, p) = refl
wait_turn-local a (true, p) = ground arith

no_machine-local :
    (a : Attempt) (queued : Bool) (why : Reason) (r : Option Outcome × Pool)
    → all_local r.0 ≡ true
    → all_local (no_machine false a queued why r).0.0 ≡ true
unfolding no_machine
no_machine-local a queued why (some out, p) e = e
no_machine-local a queued busy (none, p) e = wait_turn-local a (stand a queued p)
no_machine-local a queued why (none, p) e = refl

no_home-local :
    (a : Attempt) (key : String) (queued : Bool) (r : (Option Host × Reason) × Pool)
    → all_local (no_home false a key queued r).0.0 ≡ true
unfolding no_home ask_peer
no_home-local a key queued ((some h, why), p) = refl
no_home-local a key queued ((none, why), p) = no_machine-local a queued why (none, p) refl

after_home-local :
    (a : Attempt) (key model : String) (queued : Bool) (r : Option Outcome × Pool)
    → all_local r.0 ≡ true
    → all_local (after_home false a key model queued r).0.0 ≡ true
unfolding after_home
after_home-local a key model queued (some out, p) e = e
after_home-local a key model queued (none, p) e = no_home-local a key queued (pick a.world model p)

attempt-local :
    (a : Attempt) (keys : String × List String) (model : String) (queued : Bool) (p : Pool)
    → all_local (attempt false a keys model queued p).0.0 ≡ true
unfolding attempt
attempt-local a (key, prefixes) model queued p =
    after_home-local a key model queued (first_home false a key prefixes (a.others p))
      (first_home-local a key prefixes (a.others p))

or_next-local :
    (turn : (Option Outcome × Bool) × Pool) (later : Outcome × Pool)
    → all_local turn.0.0 ≡ true
    → is_local_only later.0 ≡ true
    → is_local_only (or_next turn later).0 ≡ true
unfolding or_next
or_next-local ((none, queued), p) later e l = l
or_next-local ((some o, queued), p) later e l = e

attempts-local :
    (keys : String × List String) (model : String) (schedule : List Attempt) (queued : Bool)
    (p : Pool)
    → is_local_only (attempts false keys model schedule queued p).0 ≡ true
unfolding attempts
attempts-local keys model [] queued p = refl
attempts-local keys model (a ∷ rest) queued p =
    let turn = attempt false a keys model queued p in
    or_next-local turn (attempts false keys model rest turn.0.1 turn.1)
      (attempt-local a keys model queued p) (attempts-local keys model rest turn.0.1 turn.1)

-- A request that is marked local-only, that is not a prompt, or that reaches a hub in no space is
-- placed without a peer, whatever the machines, the peers and the other requests do, for any number
-- of passes: no peer gets it, and none is named as having refused it.
pub place_stays_local :
    (digest : List String → String) (r : Request) (schedule : List Attempt) (p : Pool)
    → (r.has_peers && not r.local_only && job_path r.path) ≡ false
    → is_local_only (place digest r schedule p).0 ≡ true
unfolding place
place_stays_local digest r schedule p e =
    rw e (attempts-local (conversation_keys digest r.messages) r.model schedule false p)
