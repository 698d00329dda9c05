-- ===== src/Pool/Place/Ends.antt =====
-- hub/internal/pool/pool.go: the loop of `place` ends.
use homedash.Prelude.{
  ℕ, ◌≡◌, refl, String, Bool, true, false, ◌||◌, Option, none, some, List, [], ◌∷◌, any, arith,
  if◌then◌else◌,
}
use homedash.Hosts.{Host}
use homedash.Pool.{Pool, Home, acquire}
use homedash.Pool.Homes.{conversation_keys, home}
use homedash.Pool.Pick.{Reason, busy, conversation_home, pick}
use homedash.Pool.Place.{
  Request, Attempt, Outcome, PeerAnswer, nobody, refused, answers, still_waiting, may_cross, place,
  at_home, known_hosts, or_next, why_peer, attempts, attempt, after_home, first_home, ask_home,
  ask_peer, try_peer, no_machine, no_home, wait_turn, stand, placed,
}

abbrev pub is_ended : Outcome → Bool
is_ended still_waiting = false
is_ended _ = true

abbrev pub is_over : Attempt → Bool
is_over a = a.expired || a.gone

-- A pass that may sleep, or has ended.
abbrev sound_out : Bool → Option Outcome → Bool
sound_out over none = if over then false else true
sound_out over (some o) = is_ended o

abbrev never_waits : Option Outcome → Bool
never_waits none = true
never_waits (some o) = is_ended o

placed-ended : (why : Reason) (got : Option Host × Pool) → never_waits (placed why got).0 ≡ true
unfolding placed
placed-ended why (none, p) = refl
placed-ended why (some h, p) = refl

try_peer-ended :
    (now : ℕ) (key : String) (ans : PeerAnswer) (why : Reason) (p : Pool)
    → never_waits (try_peer now key ans why p).0 ≡ true
unfolding try_peer
try_peer-ended now key nobody why p = refl
try_peer-ended now key (refused n e) why p = refl
try_peer-ended now key (answers n) why p = refl

at_home-ended :
    (cross : Bool) (a : Attempt) (key : String) (hm : Option Home) (p : Pool)
    → never_waits (at_home cross a key hm p).0 ≡ true
unfolding at_home ask_home
at_home-ended cross a key none p = refl
at_home-ended cross a key (some hm) p =
    let e =
      placed-ended conversation_home
        (acquire (known_hosts a.world) a.world.disabled hm.host_id p) in
    let t = try_peer-ended a.world.now key a.home_peer conversation_home p in ground arith

wait_turn-ended : (a : Attempt) (r : Bool × Pool) → sound_out (is_over a) (wait_turn a r).0.0 ≡ true
unfolding wait_turn
wait_turn-ended a (false, p) = refl
wait_turn-ended a (true, p) = ground arith

no_machine-ended :
    (cross : Bool) (a : Attempt) (queued : Bool) (why : Reason) (r : Option Outcome × Pool)
    → never_waits r.0 ≡ true
    → sound_out (is_over a) (no_machine cross a queued why r).0.0 ≡ true
unfolding no_machine
no_machine-ended cross a queued why (some out, p) e = e
no_machine-ended cross a queued busy (none, p) e = wait_turn-ended a (stand a queued p)
no_machine-ended cross a queued why (none, p) e = refl

ask_peer-ended :
    (cross : Bool) (a : Attempt) (key : String) (why : Reason) (p : Pool)
    → never_waits (ask_peer cross a key why p).0 ≡ true
unfolding ask_peer
ask_peer-ended false a key why p = refl
ask_peer-ended true a key why p = try_peer-ended a.world.now key a.peer why p

no_home-ended :
    (cross : Bool) (a : Attempt) (key : String) (queued : Bool) (r : (Option Host × Reason) × Pool)
    → sound_out (is_over a) (no_home cross a key queued r).0.0 ≡ true
unfolding no_home
no_home-ended cross a key queued ((some h, why), p) = refl
no_home-ended cross a key queued ((none, why), p) =
    no_machine-ended cross a queued why (ask_peer cross a key (why_peer why) p)
      (ask_peer-ended cross a key (why_peer why) p)

after_home-ended :
    (cross : Bool) (a : Attempt) (key model : String) (queued : Bool) (r : Option Outcome × Pool)
    → never_waits r.0 ≡ true
    → sound_out (is_over a) (after_home cross a key model queued r).0.0 ≡ true
unfolding after_home
after_home-ended cross a key model queued (some out, p) e = e
after_home-ended cross a key model queued (none, p) e =
    no_home-ended cross a key queued (pick a.world model p)

attempt-ended :
    (cross : Bool) (a : Attempt) (keys : String × List String) (model : String) (queued : Bool)
    (p : Pool)
    → sound_out (is_over a) (attempt cross a keys model queued p).0.0 ≡ true
unfolding attempt first_home
attempt-ended cross a (key, prefixes) model queued p =
    let hm = home a.world.now prefixes (a.others p).homes in
    after_home-ended cross a key model queued (at_home cross a key hm (a.others p))
      (at_home-ended cross a key hm (a.others p))

or_next-ended :
    (over : Bool) (turn : (Option Outcome × Bool) × Pool) (later : Outcome × Pool)
    → sound_out over turn.0.0 ≡ true
    → (over ≡ false → is_ended later.0 ≡ true)
    → is_ended (or_next turn later).0 ≡ true
unfolding or_next
or_next-ended false ((none, queued), p) later e l = l refl
or_next-ended true ((none, queued), p) later e l = ground arith
or_next-ended over ((some o, queued), p) later e l = e

attempts-ended :
    (cross : Bool) (keys : String × List String) (model : String) (schedule : List Attempt)
    (queued : Bool) (p : Pool)
    → any is_over schedule ≡ true
    → is_ended (attempts cross keys model schedule queued p).0 ≡ true
unfolding attempts
attempts-ended cross keys model [] queued p e = ground arith
attempts-ended cross keys model (a ∷ rest) queued p e =
    let turn = attempt cross a keys model queued p in
    or_next-ended (is_over a) turn (attempts cross keys model rest turn.0.1 turn.1)
      (attempt-ended cross a keys model queued p)
      (λ o. attempts-ended cross keys model rest turn.0.1 turn.1 (ground arith))

-- A turn is answered, one way or another, once a pass finds the deadline past or the client gone:
-- the loop does not go to sleep again, whatever happened in the passes before.
pub place_ends :
    (digest : List String → String) (r : Request) (schedule : List Attempt) (p : Pool)
    → any is_over schedule ≡ true
    → is_ended (place digest r schedule p).0 ≡ true
unfolding place
place_ends digest r schedule p e =
    attempts-ended (may_cross r) (conversation_keys digest r.messages) r.model schedule false p e
