-- ===== src/Pool/Place/Queue.antt =====
-- hub/internal/pool/pool.go: the counter of the queue, over one turn of `place`.
use homedash.Prelude.{
  ℕ, ◌+◌, ◌≡◌, ◌≤◌, refl, ◌∙◌, subst, String, Bool, true, false, Option, none, some, List, [], ◌∷◌,
  arith, All, length,
}
use homedash.Hosts.{Host, resolve, decimal}
use homedash.Pool.{Pool, Home, acquire, take, enqueue, dequeue}
use homedash.Pool.Homes.{conversation_keys, home, remember}
use homedash.Pool.Pick.{World, Reason, busy, conversation_home, pick}
use homedash.Pool.Place.{
  Request, Attempt, Outcome, PeerAnswer, nobody, refused, answers, may_cross, place, at_home,
  known_hosts, or_next, attempts, attempt, after_home, first_home, ask_home, ask_peer, try_peer,
  no_machine, no_home, wait_turn, stand, placed, why_peer, remember_turn,
}
use homedash.Pool.Order.{mark, first_of, free_holder, pick_from-mark}
use homedash.Pool.Place.Ends.{is_ended}

take-queued : (h : Host) (p : Pool) → (take h p).1.queued ≡ p.queued
unfolding take
take-queued h p = ground arith

acquire-queued :
    (hosts : List Host) (disabled : ℕ → Bool) (id : ℕ) (p : Pool) (got : Option Host)
    → resolve (decimal id) hosts ≡ got
    → (acquire hosts disabled id p).1.queued ≡ p.queued
unfolding acquire
acquire-queued hosts disabled id p none e = rw (e, acquire) refl
acquire-queued hosts disabled id p (some h) e =
    let t = take-queued h p in rw (e, acquire) (ground arith)

remember_turn-queued :
    (now : ℕ) (key : String) (hm : Home) (p : Pool) → (remember_turn now key hm p).queued ≡ p.queued
unfolding remember_turn remember
remember_turn-queued now key hm p = ground arith

mark-queued : (got : Option Host) (p : Pool) → (mark got p).queued ≡ p.queued
mark-queued none p = refl
mark-queued (some h) p = refl

pick-queued :
    (w : World) (model : String) (p : Pool) (hosts : Option (List Host))
    → w.hosts ≡ hosts
    → (pick w model p).1.queued ≡ p.queued
unfolding pick
pick-queued w model p none e = rw e refl
pick-queued w model p (some hs) e =
    rw (e, pick_from-mark w model (length hs) hs false 0 p)
      (mark-queued (first_of (free_holder w model p) hs) p)

placed-queued : (why : Reason) (got : Option Host × Pool) → (placed why got).1.queued ≡ got.1.queued
unfolding placed
placed-queued why (none, p) = refl
placed-queued why (some h, p) = refl

try_peer-queued :
    (now : ℕ) (key : String) (ans : PeerAnswer) (why : Reason) (p : Pool)
    → (try_peer now key ans why p).1.queued ≡ p.queued
unfolding try_peer
try_peer-queued now key nobody why p = refl
try_peer-queued now key (refused n e) why p = refl
try_peer-queued now key (answers n) why p =
    remember_turn-queued now key (record { host_id = 0; peer = n; at = now }) p

at_home-queued :
    (cross : Bool) (a : Attempt) (key : String) (hm : Option Home) (p : Pool)
    → (at_home cross a key hm p).1.queued ≡ p.queued
unfolding at_home ask_home
at_home-queued cross a key none p = refl
at_home-queued cross a key (some hm) p =
    let hosts = known_hosts a.world in
    let e = placed-queued conversation_home (acquire hosts a.world.disabled hm.host_id p) in
    let f =
      acquire-queued hosts a.world.disabled hm.host_id p (resolve (decimal hm.host_id) hosts)
        refl in
    let t = try_peer-queued a.world.now key a.home_peer conversation_home p in ground arith

-- One for a request that stands in the queue.
abbrev pub standing : Bool → ℕ
standing true = 1
standing false = 0

-- What a turn adds to the counter is what it stands for.
abbrev pub Counted : ℕ → Bool → (Option Outcome × Bool) × Pool → Type 0
Counted n queued turn = turn.1.queued + standing queued ≡ n + standing turn.0.1

stand-counted :
    (a : Attempt) (queued : Bool) (p : Pool)
    → (stand a queued p).1.queued + standing queued ≡ p.queued + standing (stand a queued p).0
unfolding enqueue
stand-counted a false p = ground arith
stand-counted a true p = refl

wait_turn-Counted :
    (a : Attempt) (n : ℕ) (queued : Bool) (r : Bool × Pool)
    → r.1.queued + standing queued ≡ n + standing r.0
    → Counted n queued (wait_turn a r)
unfolding wait_turn
wait_turn-Counted a n queued (false, p) e = e
wait_turn-Counted a n queued (true, p) e = ground arith

no_machine-Counted :
    (cross : Bool) (a : Attempt) (queued : Bool) (why : Reason) (r : Option Outcome × Pool)
    → Counted r.1.queued queued (no_machine cross a queued why r)
unfolding no_machine
no_machine-Counted cross a queued why (some out, p) = refl
no_machine-Counted cross a queued busy (none, p) =
    wait_turn-Counted a p.queued queued (stand a queued p) (stand-counted a queued p)
no_machine-Counted cross a queued why (none, p) = refl

ask_peer-queued :
    (cross : Bool) (a : Attempt) (key : String) (why : Reason) (p : Pool)
    → (ask_peer cross a key why p).1.queued ≡ p.queued
unfolding ask_peer
ask_peer-queued false a key why p = refl
ask_peer-queued true a key why p = try_peer-queued a.world.now key a.peer why p

no_home-Counted :
    (cross : Bool) (a : Attempt) (key : String) (queued : Bool) (r : (Option Host × Reason) × Pool)
    → Counted r.1.queued queued (no_home cross a key queued r)
unfolding no_home
no_home-Counted cross a key queued ((some h, why), p) = refl
no_home-Counted cross a key queued ((none, why), p) =
    subst
      (λ n.
        Counted n queued (no_machine cross a queued why (ask_peer cross a key (why_peer why) p)))
      (ask_peer-queued cross a key (why_peer why) p)
      (no_machine-Counted cross a queued why (ask_peer cross a key (why_peer why) p))

after_home-Counted :
    (cross : Bool) (a : Attempt) (key model : String) (queued : Bool) (r : Option Outcome × Pool)
    → Counted r.1.queued queued (after_home cross a key model queued r)
unfolding after_home
after_home-Counted cross a key model queued (some out, p) = refl
after_home-Counted cross a key model queued (none, p) =
    subst (λ n. Counted n queued (no_home cross a key queued (pick a.world model p)))
      (pick-queued a.world model p a.world.hosts refl)
      (no_home-Counted cross a key queued (pick a.world model p))

-- The other requests leave the counter as it was, by the end of the pass.
abbrev pub Settled : Attempt → Type 0
Settled a = (p : Pool) → (a.others p).queued ≡ p.queued

attempt-Counted :
    (cross : Bool) (a : Attempt) (keys : String × List String) (model : String) (queued : Bool)
    (p : Pool)
    → Settled a
    → Counted p.queued queued (attempt cross a keys model queued p)
unfolding attempt first_home
attempt-Counted cross a (key, prefixes) model queued p s =
    let hm = home a.world.now prefixes (a.others p).homes in
    let e = at_home-queued cross a key hm (a.others p) in
    let c = after_home-Counted cross a key model queued (at_home cross a key hm (a.others p)) in
    let s' = s p in
    subst
      (λ n.
        Counted n queued
          (after_home cross a key model queued (at_home cross a key hm (a.others p))))
      (e ∙ s') c

or_next-queued :
    (n : ℕ) (queued : Bool) (turn : (Option Outcome × Bool) × Pool) (later : Outcome × Pool)
    → Counted n queued turn
    → standing queued ≤ n
    → (standing turn.0.1 ≤ turn.1.queued
        → is_ended later.0 ≡ true
        → later.1.queued + standing turn.0.1 ≡ turn.1.queued)
    → is_ended (or_next turn later).0 ≡ true
    → (or_next turn later).1.queued + standing queued ≡ n
unfolding or_next dequeue
or_next-queued n queued ((none, q), p) later c e l d = let i = l (omega arith) d in omega arith
or_next-queued n queued ((some o, false), p) later c e l d = c ∙ omega arith
or_next-queued n queued ((some o, true), p) later c e l d = ground arith

attempts-queued :
    (cross : Bool) (keys : String × List String) (model : String) (schedule : List Attempt)
    (queued : Bool) (p : Pool)
    → All Settled schedule
    → standing queued ≤ p.queued
    → is_ended (attempts cross keys model schedule queued p).0 ≡ true
    → (attempts cross keys model schedule queued p).1.queued + standing queued ≡ p.queued
unfolding attempts
attempts-queued cross keys model [] queued p s le e = ground arith
attempts-queued cross keys model (a ∷ rest) queued p s le e =
    let turn = attempt cross a keys model queued p in
    or_next-queued p.queued queued turn (attempts cross keys model rest turn.0.1 turn.1)
      (attempt-Counted cross a keys model queued p s.0) le
      (λ le' e'. attempts-queued cross keys model rest turn.0.1 turn.1 s.1 le' e') e

-- While the other requests leave the queue's counter as it was, a turn that ends leaves it so too,
-- however many passes it waited and however it ended: placed, refused, timed out or abandoned.
pub place-queued :
    (digest : List String → String) (r : Request) (schedule : List Attempt) (p : Pool)
    → All Settled schedule
    → is_ended (place digest r schedule p).0 ≡ true
    → (place digest r schedule p).1.queued ≡ p.queued
unfolding place
place-queued digest r schedule p s e =
    let c =
      attempts-queued (may_cross r) (conversation_keys digest r.messages) r.model schedule false p s
        (omega arith) e in
    omega arith
