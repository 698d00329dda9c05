-- ===== src/Space/Services/Limits.antt =====
-- hub/internal/peers/services.go: the handler and the ends of its connections, in any order.
use homedash.Space.Services.Share.{
  times, without_one, Held, Held-given_back, Held-refused, Held-accepted, Held-ended,
}
use Prim.Native.String
use homedash.Prelude.{
  ◌≤◌, ◌≡◌, refl, sym, ap, String, true, false, not, ◌||◌, Option, none, some, List, [], ◌∷◌,
  length, any, str_eq, if◌then◌else◌, Bool-cases, subst, if-either, inl, inr, arith,
}
use homedash.Prelude.Int.{ℤ, pos, succ_ℤ, pred_ℤ, leb_ℤ, ltb_ℤ}
use homedash.Settings.{Settings}
use homedash.Space.{Verdict, reset, refused, accepted, panics, contains, change}
use homedash.Space.Sending.{is_approved}
use homedash.Space.Services.{
  Published, Wanted, Conns, ceiling, share, counted, end_conn, dial, take_share, take_place,
  to_host, to_service, admit_conn,
}

-- The same of the counters as they are kept: in a space.
Kept : Settings → Conns × List String → Type 0
Kept settings (c, work) =
    (counts : String → ℤ) × ((c.per_peer ≡ some counts) × Held settings c.total counts work)

kept_counts :
    (settings : Settings) (c : Conns) (work : List String)
    → Kept settings (c, work)
    → (counts : String → ℤ) × (c.per_peer ≡ some counts)
unfolding Kept
kept_counts settings c work k = (k.0, k.1.0)

Kept-Held :
    (settings : Settings) (c : Conns) (work : List String) (k : Kept settings (c, work))
    → Held settings c.total (kept_counts settings c work k).0 work
unfolding Kept kept_counts
Kept-Held settings c work k = k.1.1

end_conn-Kept :
    (settings : Settings) (peer : String) (c : Conns) (work : List String)
    → Kept settings (c, work)
    → any (λ x. str_eq x peer) work ≡ true
    → Kept settings (end_conn peer c, without_one peer work)
unfolding Kept end_conn
end_conn-Kept settings peer c work k held = (
  change pred_ℤ peer k.0,
  (ap (counted pred_ℤ peer) k.1.0, Held-ended settings c.total k.0 work peer k.1.1 held),
)

abbrev pub added : String → List String → Verdict × Conns → Conns × List String
added peer work (accepted, c) = (c, peer ∷ work)
added peer work (reset, c) = (c, work)
added peer work (refused why, c) = (c, work)
added peer work (panics, c) = (c, work)

dial-Kept :
    (q : Wanted) (sv : Published) (peer : String) (t : ℤ) (f : String → ℤ) (work : List String)
    → Held q.settings t f work
    → leb_ℤ (pos (share q.settings)) (f peer) ≡ false
    → ltb_ℤ (pos (ceiling q.settings)) (succ_ℤ t) ≡ false
    → Kept q.settings (
        added peer work
          (dial q sv peer (record { total = succ_ℤ t; per_peer = some (change succ_ℤ peer f) })))
unfolding Kept dial end_conn
dial-Kept q sv peer t f work h over full = elim (Bool-cases q.answers) [
  | inl e ↦
      rw (e) (change succ_ℤ peer f, (refl, Held-accepted q.settings t f work peer h over full))
  | inr e ↦
      rw (e)
        (change pred_ℤ peer (change succ_ℤ peer f), (refl, Held-refused q.settings t f work peer h))
]

take_share-Kept :
    (q : Wanted) (sv : Published) (peer : String) (t : ℤ) (f : String → ℤ) (work : List String)
    → Held q.settings t f work
    → ltb_ℤ (pos (ceiling q.settings)) (succ_ℤ t) ≡ false
    → Kept q.settings
        (added peer work (take_share q sv peer (record { total = succ_ℤ t; per_peer = some f })))
unfolding Kept take_share
take_share-Kept q sv peer t f work h full =
    elim (Bool-cases (leb_ℤ (pos (share q.settings)) (f peer))) [
      | inl e ↦ rw (e) (f, (refl, Held-given_back q.settings t f work h))
      | inr e ↦ rw (e) (dial-Kept q sv peer t f work h e full)
    ]

take_place-Kept :
    (q : Wanted) (sv : Published) (peer : String) (t : ℤ) (f : String → ℤ) (work : List String)
    → Held q.settings t f work
    → Kept q.settings
        (added peer work (take_place q sv peer (record { total = t; per_peer = some f })))
unfolding Kept take_place
take_place-Kept q sv peer t f work h =
    elim (Bool-cases (ltb_ℤ (pos (ceiling q.settings)) (succ_ℤ t))) [
      | inl e ↦ rw (e) (f, (refl, Held-given_back q.settings t f work h))
      | inr e ↦ rw (e) (take_share-Kept q sv peer t f work h e)
    ]

to_service-Kept :
    (q : Wanted) (peer : String) (o : Option Published) (c : Conns) (work : List String)
    → Kept q.settings (c, work)
    → Kept q.settings (added peer work (to_service q peer o c))
to_service-Kept q peer none c work k = k
to_service-Kept q peer (some sv) c work k =
    if-either (λ r. Kept q.settings (added peer work r)) (contains sv.peers peer)
      (to_host q sv peer c) (refused "not published to you", c)
      (if-either (λ r. Kept q.settings (added peer work r)) q.host_online (take_place q sv peer c)
        (refused (String.◌++◌ sv.host " is not online"), c)
        (subst
          (λ pp.
            Kept q.settings
              (added peer work (take_place q sv peer (record { total = c.total; per_peer = pp }))))
          (sym (kept_counts q.settings c work k).1)
          (take_place-Kept q sv peer c.total (kept_counts q.settings c work k).0 work
            (Kept-Held q.settings c work k)))
        k)
      k

admit_conn-Kept :
    (q : Wanted) (peer : String) (c : Conns) (work : List String)
    → Kept q.settings (c, work)
    → Kept q.settings (added peer work (admit_conn q peer c))
unfolding admit_conn
admit_conn-Kept q peer c work k =
    if-either (λ r. Kept q.settings (added peer work r)) (not q.known || not q.readable) (reset, c)
      (if not (is_approved q.peer)
        then (refused "not approved", c)
        else to_service q peer q.service c)
      k
      (if-either (λ r. Kept q.settings (added peer work r)) (not (is_approved q.peer))
        (refused "not approved", c) (to_service q peer q.service c) k
        (to_service-Kept q peer q.service c work k))

-- A peer asks for a connection, or one of its connections at work ends.
pub data Event : Type 0 where
  asks : Wanted → String → Event
  ends : String → Event

abbrev pub step : Settings → Event → Conns × List String → Conns × List String
step settings (asks q peer) (c, work) =
    added peer work (admit_conn (record q { settings = settings }) peer c)
step settings (ends peer) (c, work) =
    if any (λ x. str_eq x peer) work then (end_conn peer c, without_one peer work) else (c, work)

abbrev pub run : Settings → List Event → Conns × List String → Conns × List String
run settings [] s = s
run settings (e ∷ es) s = run settings es (step settings e s)

step-Kept :
    (settings : Settings) (e : Event) (s : Conns × List String)
    → Kept settings s
    → Kept settings (step settings e s)
step-Kept settings (asks q peer) (c, work) k =
    admit_conn-Kept (record q { settings = settings }) peer c work k
step-Kept settings (ends peer) (c, work) k = elim (Bool-cases (any (λ x. str_eq x peer) work)) [
  | inl e ↦ rw (e) (end_conn-Kept settings peer c work k e)
  | inr e ↦ rw (e) k
]

run-Kept :
    (settings : Settings) (es : List Event) (s : Conns × List String)
    → Kept settings s
    → Kept settings (run settings es s)
run-Kept settings [] s k = k
run-Kept settings (e ∷ es) s k = run-Kept settings es (step settings e s) (step-Kept settings e s k)

-- The counters as the hub joins its space for the first time.
abbrev pub joined : Conns
joined = record { total = pos 0; per_peer = some (λ _. pos 0) }

-- From the counters of a hub that has joined its space, under settings that stay the same, and
-- whatever peers ask for connections and connections end in whatever order: the connections at work
-- are as many as the total counts, no more than the ceiling, and no peer has more of them than its share.
pub run-limits :
    (settings : Settings) (es : List Event) (peer : String)
    → ((run settings es (joined, [])).0.total ≡ pos (length (run settings es (joined, [])).1))
      × (length (run settings es (joined, [])).1 ≤ ceiling settings)
      × (times peer (run settings es (joined, [])).1 ≤ share settings)
unfolding Kept Held
run-limits settings es peer =
    let k =
      run-Kept settings es (joined, [])
        (λ _. pos 0, (refl, (refl, (λ p. refl), omega arith, (λ p. omega arith)))) in
    (k.1.1.0, k.1.1.2, k.1.1.3 peer)
