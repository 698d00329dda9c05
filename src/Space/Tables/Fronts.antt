-- ===== src/Space/Tables/Fronts.antt =====
-- hub/internal/store/peers.go: who approves a front of a peer's service.
use homedash.Prelude.{
  ◌≡◌, refl, sym, ap, ◌∙◌, String, Bool, true, false, not, ◌&&◌, ◌||◌, none, some, List, [], ◌∷◌,
  str_eq, if◌then◌else◌, keep, str_eq_iff, ◌↔◌, arith,
}
use homedash.Space.Tables.Approval.{
  Event, offers, sets, forgets, sets_front, seen_fronts, happen, Standing, ruled_offer, names,
  front_standing, ruled_front_all,
}
use homedash.Space.Tables.{
  Front, Tables, seen_peer, set_peer, forget_peer, is_front, seen_front, set_front, find_front,
}

is_front_iff :
    (peer service : String) (f : Front)
    → (is_front peer service f ≡ true) ↔ ((f.peer_id ≡ peer) × (f.service ≡ service))
unfolding is_front
is_front_iff peer service f =
    let a = str_eq_iff f.peer_id peer in let b = str_eq_iff f.service service in ground arith

find_front-seen :
    (peer service other_peer other : String) (fs : List Front)
    → front_standing (find_front peer service (seen_front other_peer other fs)) ≡ (
        if str_eq other_peer peer && str_eq other service
        then ruled_offer false (front_standing (find_front peer service fs))
        else front_standing (find_front peer service fs))
unfolding seen_front find_front is_front
find_front-seen peer service other_peer other [] = ground arith
find_front-seen peer service other_peer other (f ∷ fs) =
    let i = find_front-seen peer service other_peer other fs in
    let a = str_eq_iff f.peer_id peer in
    let b = str_eq_iff f.service service in
    let a' = str_eq_iff f.peer_id other_peer in
    let b' = str_eq_iff f.service other in
    let c = str_eq_iff other_peer peer in let d = str_eq_iff other service in ground arith

-- A row with the key of another answers to the same keys.
is_front-same :
    (peer service : String) (new f : Front)
    → is_front new.peer_id new.service f ≡ true
    → is_front peer service f ≡ is_front peer service new
unfolding is_front
is_front-same peer service new f h =
    let b = (is_front_iff new.peer_id new.service f).0 h in rw (b.0, b.1) refl

is_front-apart :
    (peer service : String) (new f : Front)
    → is_front new.peer_id new.service f ≡ false
    → is_front peer service f ≡ true
    → is_front peer service new ≡ false
is_front-apart peer service new f h k =
    let b = is_front_iff new.peer_id new.service f in
    let a = is_front_iff peer service f in let c = is_front_iff peer service new in ground arith

find_front-set :
    (peer service : String) (new : Front) (fs : List Front)
    → front_standing (find_front peer service (set_front new fs)) ≡ (
        if is_front peer service new
        then some new.approved
        else front_standing (find_front peer service fs))
unfolding set_front find_front
find_front-set peer service new [] = ground arith
find_front-set peer service new (f ∷ fs) =
    let i = find_front-set peer service new fs in
    let same = is_front-same peer service new f in
    let apart = is_front-apart peer service new f in ground arith

find_front-forgotten :
    (peer service other : String) (fs : List Front)
    → front_standing (find_front peer service (keep (λ f. not (str_eq f.peer_id other)) fs))
      ≡ (if str_eq other peer then none else front_standing (find_front peer service fs))
unfolding find_front is_front
find_front-forgotten peer service other [] = ground arith
find_front-forgotten peer service other (f ∷ fs) =
    let i = find_front-forgotten peer service other fs in
    let a = str_eq_iff f.peer_id peer in
    let b = str_eq_iff f.peer_id other in let c = str_eq_iff other peer in ground arith

if_same : (c : Bool) (was : Standing) → (if c && false then ruled_offer false was else was) ≡ was
if_same true was = refl
if_same false was = refl

offered_twice :
    (c d r : Bool) (was : Standing)
    → (if c && r
        then ruled_offer false (if c && d then ruled_offer false was else was)
        else (if c && d then ruled_offer false was else was))
      ≡ (if c && (d || r) then ruled_offer false was else was)
offered_twice true true true none = refl
offered_twice true true true (some was) = refl
offered_twice true true false was = refl
offered_twice true false r was = refl
offered_twice false d r was = refl

find_front-seen_fronts :
    (peer service other : String) (xs : List String) (fs : List Front)
    → front_standing (find_front peer service (seen_fronts other xs fs)) ≡ (
        if str_eq other peer && names service xs
        then ruled_offer false (front_standing (find_front peer service fs))
        else front_standing (find_front peer service fs))
unfolding seen_fronts
find_front-seen_fronts peer service other [] fs =
    sym (if_same (str_eq other peer) (front_standing (find_front peer service fs)))
find_front-seen_fronts peer service other (x ∷ xs) fs =
    find_front-seen_fronts peer service other xs (seen_front other x fs)
    ∙ ap (λ st. if str_eq other peer && names service xs then ruled_offer false st else st)
        (find_front-seen peer service other x fs)
    ∙ offered_twice (str_eq other peer) (str_eq x service) (names service xs)
        (front_standing (find_front peer service fs))

-- After any sequence of offers and of a person's settings, what the table says of a service of a peer
-- is what the rules say: the first offer of the peer that names it brings it in, not approved, no
-- offer changes it after that, a setting of the front decides, and it goes when the peer is forgotten.
pub happen-ruled_front :
    (peer service : String) (es : List Event) (s : Tables)
    → front_standing (find_front peer service (happen es s).fronts)
      ≡ ruled_front_all peer service es (front_standing (find_front peer service s.fronts))
unfolding happen forget_peer
happen-ruled_front peer service [] s = refl
happen-ruled_front peer service (offers p xs ∷ es) s =
    happen-ruled_front peer service es
      (record s { peers = seen_peer p s.peers; fronts = seen_fronts p.id xs s.fronts })
    ∙ ap (ruled_front_all peer service es) (find_front-seen_fronts peer service p.id xs s.fronts)
happen-ruled_front peer service (sets other approved most hourly ∷ es) s =
    happen-ruled_front peer service es
      (record s { peers = set_peer other approved most hourly s.peers })
happen-ruled_front peer service (forgets other ∷ es) s =
    happen-ruled_front peer service es (forget_peer other s)
    ∙ ap (ruled_front_all peer service es) (find_front-forgotten peer service other s.fronts)
happen-ruled_front peer service (sets_front f ∷ es) s =
    happen-ruled_front peer service es (record s { fronts = set_front f s.fronts })
    ∙ ap (ruled_front_all peer service es) (find_front-set peer service f s.fronts)
