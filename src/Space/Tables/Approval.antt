-- ===== src/Space/Tables/Approval.antt =====
-- hub/internal/store/peers.go: who approves a peer and a front. What a hub says about itself in its
-- offers, in whatever order the offers come, approves neither.
use homedash.Prelude.{
  ◌≡◌, refl, ap, ◌∙◌, String, Bool, false, not, ◌&&◌, Option, none, some, List, [], ◌∷◌, str_eq,
  if◌then◌else◌, any, keep, str_eq_iff, arith,
}
use homedash.Prelude.Int.{ℤ}
use homedash.Space.Tables.{
  Peer, Front, Tables, seen_peer, find_peer, set_peer, forget_peer, is_front, seen_front, set_front,
}

-- What happens to the tables: an offer comes that names services, or a person sets or forgets a peer
-- or sets a front.
pub data Event : Type 0 where
  offers : Peer → List String → Event
  sets : String → Bool → ℤ → ℤ → Event
  forgets : String → Event
  sets_front : Front → Event

-- `learn`'s loop over the services of an offer.
unfoldable pub seen_fronts : String → List String → List Front → List Front
seen_fronts peer [] fs = fs
seen_fronts peer (x ∷ xs) fs = seen_fronts peer xs (seen_front peer x fs)

unfoldable pub happen : List Event → Tables → Tables
happen [] s = s
happen (offers p services ∷ es) s =
    happen es
      (record s { peers = seen_peer p s.peers; fronts = seen_fronts p.id services s.fronts })
happen (sets id approved most hourly ∷ es) s =
    happen es (record s { peers = set_peer id approved most hourly s.peers })
happen (forgets id ∷ es) s = happen es (forget_peer id s)
happen (sets_front f ∷ es) s = happen es (record s { fronts = set_front f s.fronts })

-- A peer as its rules see it: unknown, or known and approved or not.
abbrev pub Standing : Type 0
Standing = Option Bool

abbrev pub standing : Option Peer → Standing
standing none = none
standing (some p) = some p.approved

-- The rules: the first offer has the default, a person's decision stands until the next, and a peer
-- that is forgotten is unknown.
abbrev pub ruled_set : Bool → Standing → Standing
ruled_set approved none = none
ruled_set approved (some was) = some approved

abbrev pub ruled_offer : Bool → Standing → Standing
ruled_offer default none = some default
ruled_offer default (some was) = some was

abbrev pub ruled : String → Event → Standing → Standing
ruled id (offers p services) was = if str_eq p.id id then ruled_offer p.approved was else was
ruled id (sets other approved most hourly) was =
    if str_eq other id then ruled_set approved was else was
ruled id (forgets other) was = if str_eq other id then none else was
ruled id (sets_front f) was = was

abbrev pub ruled_all : String → List Event → Standing → Standing
ruled_all id [] was = was
ruled_all id (e ∷ es) was = ruled_all id es (ruled id e was)

-- The same of one service of one peer.
abbrev pub front_standing : Option Front → Standing
front_standing none = none
front_standing (some f) = some f.approved

abbrev pub names : String → List String → Bool
names service = any (λ x. str_eq x service)

abbrev pub ruled_front : String → String → Event → Standing → Standing
ruled_front peer service (offers p services) was =
    if str_eq p.id peer && names service services then ruled_offer false was else was
ruled_front peer service (sets id approved most hourly) was = was
ruled_front peer service (forgets other) was = if str_eq other peer then none else was
ruled_front peer service (sets_front f) was =
    if is_front peer service f then some f.approved else was

abbrev pub ruled_front_all : String → String → List Event → Standing → Standing
ruled_front_all peer service [] was = was
ruled_front_all peer service (e ∷ es) was =
    ruled_front_all peer service es (ruled_front peer service e was)

seen_peer-standing :
    (id : String) (new : Peer) (ps : List Peer)
    → standing (find_peer id (seen_peer new ps))
      ≡ ruled id (offers new []) (standing (find_peer id ps))
unfolding seen_peer find_peer
seen_peer-standing id new [] = ground arith
seen_peer-standing id new (p ∷ ps) =
    let i = seen_peer-standing id new ps in
    let e = str_eq_iff p.id new.id in
    let f = str_eq_iff new.id id in let g = str_eq_iff p.id id in ground arith

set_peer-standing :
    (id other : String) (approved : Bool) (most hourly : ℤ) (ps : List Peer)
    → standing (find_peer id (set_peer other approved most hourly ps))
      ≡ ruled id (sets other approved most hourly) (standing (find_peer id ps))
unfolding set_peer find_peer
set_peer-standing id other approved most hourly [] = ground arith
set_peer-standing id other approved most hourly (p ∷ ps) =
    let i = set_peer-standing id other approved most hourly ps in
    let e = str_eq_iff p.id other in
    let f = str_eq_iff other id in let g = str_eq_iff p.id id in ground arith

forget_peer-standing :
    (id other : String) (ps : List Peer)
    → standing (find_peer id (keep (λ p. not (str_eq p.id other)) ps))
      ≡ ruled id (forgets other) (standing (find_peer id ps))
unfolding find_peer
forget_peer-standing id other [] = ground arith
forget_peer-standing id other (p ∷ ps) =
    let i = forget_peer-standing id other ps in
    let e = str_eq_iff p.id other in
    let f = str_eq_iff other id in let g = str_eq_iff p.id id in ground arith

-- After any sequence of offers and of a person's settings, what the table says of a peer is what the
-- rules say: the first offer of an unknown peer brings it in with the approval that comes with it, no other offer changes that, a
-- setting decides for a peer that is known, and a peer that is forgotten is unknown; what happens to
-- the other peers does not matter.
pub happen-ruled :
    (id : String) (es : List Event) (s : Tables)
    → standing (find_peer id (happen es s).peers)
      ≡ ruled_all id es (standing (find_peer id s.peers))
unfolding happen forget_peer
happen-ruled id [] s = refl
happen-ruled id (offers p services ∷ es) s =
    happen-ruled id es
      (record s { peers = seen_peer p s.peers; fronts = seen_fronts p.id services s.fronts })
    ∙ ap (ruled_all id es) (seen_peer-standing id p s.peers)
happen-ruled id (sets other approved most hourly ∷ es) s =
    happen-ruled id es (record s { peers = set_peer other approved most hourly s.peers })
    ∙ ap (ruled_all id es) (set_peer-standing id other approved most hourly s.peers)
happen-ruled id (forgets other ∷ es) s =
    happen-ruled id es (forget_peer other s)
    ∙ ap (ruled_all id es) (forget_peer-standing id other s.peers)
happen-ruled id (sets_front f ∷ es) s =
    happen-ruled id es (record s { fronts = set_front f s.fronts })
