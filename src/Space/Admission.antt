-- ===== src/Space/Admission.antt =====
-- hub/internal/peers/peers.go: which jobs `handleJob` takes in.
use homedash.Prelude.{
  String, ◌≡◌, refl, ap, ◌∙◌, Bool, true, false, not, ◌&&◌, Option, none, some, ltb, arith,
  if◌then◌else◌, str_eq, Bool-cases, inl, inr, subst,
}
use homedash.Prelude.Int.{ℤ, pos, leb_ℤ, ltb_ℤ, succ_ℤ}
use homedash.Settings.{setting_nat, setting_bool}
use homedash.Pool.Place.{job_path}
use homedash.Space.{
  Asked, JobHeader, PeerRow, Counters, Verdict, reset, refused, accepted, admit, admit_row,
  admit_header, after_row, check_row, count_in, is_full, body_max, approved_row, count_of,
}

abbrev pub is_accepted : Verdict → Bool
is_accepted accepted = true
is_accepted _ = false

count_in-accepted :
    (q : Asked) (row : PeerRow) (peer : String) (counts : String → ℤ) (total : ℤ)
    → let c : Counters = record { serving = some counts; total = total } in
      is_accepted (count_in q row peer c).0 ≡ not (is_full q row peer c)
unfolding count_in
count_in-accepted q row peer counts total = ground arith

abbrev is_none : Option String → Bool
is_none none = true
is_none (some why) = false

-- The tests on the header and the allowances.
abbrev pub row_passes : Asked → JobHeader → PeerRow → Bool
row_passes q hdr row =
    job_path hdr.path
    && leb_ℤ (pos 0) hdr.size
    && leb_ℤ hdr.size (pos body_max)
    && ltb_ℤ (pos q.served) row.per_hour
    && ltb q.served_all (setting_nat q.settings "space.per_hour" 100)

check_row-none :
    (q : Asked) (hdr : JobHeader) (row : PeerRow)
    → is_none (check_row q hdr row) ≡ row_passes q hdr row
unfolding check_row
check_row-none q hdr row = ground arith

after_row-accepted :
    (q : Asked) (row : PeerRow) (peer : String) (why : Option String) (counts : String → ℤ)
    (total : ℤ)
    → let c : Counters = record { serving = some counts; total = total } in
      is_accepted (after_row q row peer why c).0 ≡ is_none why && not (is_full q row peer c)
after_row-accepted q row peer none counts total = count_in-accepted q row peer counts total
after_row-accepted q row peer (some why) counts total = refl

admit_row-accepted :
    (q : Asked) (peer : String) (hdr : JobHeader) (row : PeerRow) (counts : String → ℤ) (total : ℤ)
    → let c : Counters = record { serving = some counts; total = total } in
      is_accepted (admit_row q peer hdr (approved_row (some row)) c).0
      ≡ row.approved && (row_passes q hdr row && not (is_full q row peer c))
admit_row-accepted q peer hdr row counts total =
    let c : Counters = record { serving = some counts; total = total } in
    let e = after_row-accepted q row peer (check_row q hdr row) counts total in
    let f = check_row-none q hdr row in
    elim row.approved
      as (λ b.
        is_accepted (admit_row q peer hdr (if b then some row else none) c).0
        ≡ b && (row_passes q hdr row && not (is_full q row peer c))) [
          | true ↦ e ∙ ap (λ b. b && not (is_full q row peer c)) f
          | false ↦ refl
        ]

-- Under the peer's concurrency and under the hub's ceiling.
abbrev pub has_room : Asked → PeerRow → String → Counters → Bool
has_room q row peer c =
    ltb_ℤ (count_of peer c) row.max_concurrent
    && ltb_ℤ c.total (pos (setting_nat q.settings "space.ceiling" 2))

full-room :
    (q : Asked) (row : PeerRow) (peer : String) (c : Counters)
    → not (is_full q row peer c) ≡ has_room q row peer c
full-room q row peer c = ground arith

served-accepted :
    (known serve : Bool) (r : Verdict × Counters) (c : Counters) (b : Bool)
    → is_accepted r.0 ≡ b
    → is_accepted
        (if not known
          then (reset, c)
          else if not serve
          then (refused "this hub does not run peers' jobs", c)
          else r).0
      ≡ known && (serve && b)
served-accepted false serve r c b e = refl
served-accepted true false r c b e = refl
served-accepted true true r c b e = e

admit-accepted :
    (q : Asked) (peer : String) (hdr : JobHeader) (row : PeerRow) (counts : String → ℤ) (total : ℤ)
    → q.header ≡ some hdr
    → q.peer ≡ some row
    → let c : Counters = record { serving = some counts; total = total } in
      is_accepted (admit q peer c).0
      ≡ q.known
        && (setting_bool q.settings "space.serve"
            && (row.approved && (row_passes q hdr row && has_room q row peer c)))
unfolding admit
admit-accepted q peer hdr row counts total h r =
    let c : Counters = record { serving = some counts; total = total } in
    let e =
      admit_row-accepted q peer hdr row counts total
      ∙ ap (λ b. row.approved && (row_passes q hdr row && b)) (full-room q row peer c) in
    rw (h, r)
      (served-accepted q.known (setting_bool q.settings "space.serve")
        (admit_row q peer hdr (approved_row (some row)) c) c _ e)

-- One more job of a peer, and one more of all.
abbrev pub one_more : String → (String → ℤ) → ℤ → Counters
one_more peer counts total = record {
  serving = some (λ other. if str_eq peer other then succ_ℤ (counts other) else counts other);
  total = succ_ℤ total;
}

-- The counters that an answer leaves: one more job if it was taken in, else what they were.
abbrev Counts : String → (String → ℤ) → ℤ → Verdict × Counters → Type 0
Counts peer counts total r = r.1 ≡ (
    if is_accepted r.0
    then one_more peer counts total
    else record { serving = some counts; total = total })

count_in-Counts :
    (q : Asked) (row : PeerRow) (peer : String) (counts : String → ℤ) (total : ℤ)
    → Counts peer counts total
        (count_in q row peer (record { serving = some counts; total = total }))
unfolding count_in
count_in-Counts q row peer counts total =
    let c : Counters = record { serving = some counts; total = total } in
    elim (Bool-cases (is_full q row peer c)) [ inl e ↦ rw (e) refl | inr e ↦ rw (e) refl ]

after_row-Counts :
    (q : Asked) (row : PeerRow) (peer : String) (why : Option String) (counts : String → ℤ)
    (total : ℤ)
    → Counts peer counts total
        (after_row q row peer why (record { serving = some counts; total = total }))
after_row-Counts q row peer none counts total = count_in-Counts q row peer counts total
after_row-Counts q row peer (some why) counts total = refl

admit_row-Counts :
    (q : Asked) (peer : String) (hdr : JobHeader) (row : Option PeerRow) (counts : String → ℤ)
    (total : ℤ)
    → Counts peer counts total
        (admit_row q peer hdr row (record { serving = some counts; total = total }))
admit_row-Counts q peer hdr none counts total = refl
admit_row-Counts q peer hdr (some row) counts total =
    after_row-Counts q row peer (check_row q hdr row) counts total

admit_header-Counts :
    (q : Asked) (peer : String) (hdr : JobHeader) (counts : String → ℤ) (total : ℤ)
    → Counts peer counts total
        (admit_header q peer (some hdr) (record { serving = some counts; total = total }))
admit_header-Counts q peer hdr counts total =
    elim (Bool-cases (setting_bool q.settings "space.serve")) [
      | inl e ↦ rw (e) (admit_row-Counts q peer hdr (approved_row q.peer) counts total)
      | inr e ↦ rw (e) refl
    ]

admit-Counts :
    (q : Asked) (peer : String) (hdr : JobHeader) (counts : String → ℤ) (total : ℤ)
    → q.header ≡ some hdr
    → Counts peer counts total (admit q peer (record { serving = some counts; total = total }))
unfolding admit
admit-Counts q peer hdr counts total h = elim (Bool-cases q.known) [
  | inl e ↦ rw (e, h) (admit_header-Counts q peer hdr counts total)
  | inr e ↦ rw (e) refl
]

-- With a header that was read, a row of the peer and the counters of a space, a job is taken in
-- exactly when all of this holds: the peer was found at the rendezvous, this hub serves jobs, the
-- peer is approved, the path is a prompt's, the size is within 0 and 64 MiB, the peer's and the hub's
-- hourly allowances are not used up, and neither the peer's concurrency nor the ceiling is reached.
-- Then the peer's counter and the total are one more and no other peer's changes; else the counters
-- stay what they were.
pub admit_exactly :
    (q : Asked) (peer : String) (hdr : JobHeader) (row : PeerRow) (counts : String → ℤ) (total : ℤ)
    → q.header ≡ some hdr
    → q.peer ≡ some row
    → let c : Counters = record { serving = some counts; total = total } in
      let taken =
        q.known
        && (setting_bool q.settings "space.serve"
            && (row.approved && (row_passes q hdr row && has_room q row peer c))) in
      (is_accepted (admit q peer c).0 ≡ taken)
      × ((admit q peer c).1 ≡ (if taken then one_more peer counts total else c))
admit_exactly q peer hdr row counts total h r =
    let c : Counters = record { serving = some counts; total = total } in
    let e = admit-accepted q peer hdr row counts total h r in
    (
      e,
      subst (λ b. (admit q peer c).1 ≡ (if b then one_more peer counts total else c)) e
          (admit-Counts q peer hdr counts total h),
    )
