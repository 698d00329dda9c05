-- ===== src/Usage/Rollup.antt =====
-- hub/internal/store/hosts.go: what `RollupUsage` adds, and that it adds it once.
use homedash.Prelude.{
  ℕ, ◌+◌, ◌-◌, ◌≤◌, ◌≡◌, refl, ap, ◌∙◌, Bool, true, false, not, ◌||◌, List, [], ◌∷◌, ltb,
  if◌then◌else◌, keep, All, All-keep, Bool-cases, inl, inr, arith,
}
use homedash.Usage.{
  Tokens, add_tokens, Reply, Hour, Ledger, raw_ms, hour_of, rolled_until, is_due, is_hour, one_call,
  accumulate_all, put_hour, put_hours, rollup, sum_replies, sum_hours, usage_total,
}
use homedash.Usage.Sums.{
  has_hour, sum-accumulate_all, sum-put_hours, Apart-due, has_hour-put_hour, has_hour-accumulate,
  has_hour-rolled,
}

-- Of a counter that adds up, a rollup brings to a host's hourly rows exactly what the rows that were
-- due have.
rollup-sum_hours :
    (read : Tokens → ℕ) (host now : ℕ) (l : Ledger)
    → ((a b : Tokens) → read (add_tokens a b) ≡ read a + read b)
    → sum_hours read host 0 (rollup now l).hourly
      ≡ sum_replies read host 0 (keep (is_due now l.hourly) l.raw) + sum_hours read host 0 l.hourly
unfolding rollup
rollup-sum_hours read host now l add =
    let due = keep (is_due now l.hourly) l.raw in
    sum-put_hours read host (accumulate_all due) l.hourly (Apart-due now l.raw l.hourly)
    ∙ ap (λ n. n + sum_hours read host 0 l.hourly) (sum-accumulate_all read add host due)

keep-All : (us : List Reply) (test : Reply → Bool) → All (λ u. test u ≡ true) us → keep test us ≡ us
keep-All [] test h = refl
keep-All (u ∷ us) test h = let i = keep-All us test h.1 in let e = h.0 in ground arith

-- Of a counter that adds up, and with no raw row older than two days, a rollup raises the total of a
-- host over all time by what it has rolled up: the raw rows stay, and are counted beside the hourly ones.
pub rollup-usage_total :
    (read : Tokens → ℕ) (host now : ℕ) (l : Ledger)
    → ((a b : Tokens) → read (add_tokens a b) ≡ read a + read b)
    → All (λ u. not (ltb u.at (now - raw_ms)) ≡ true) l.raw
    → usage_total read host 0 (rollup now l)
      ≡ sum_replies read host 0 (keep (is_due now l.hourly) l.raw) + usage_total read host 0 l
unfolding usage_total rollup
rollup-usage_total read host now l add recent =
    let s = rollup-sum_hours read host now l add in
    let k =
      ap (sum_replies read host 0) (keep-All l.raw (λ u. not (ltb u.at (now - raw_ms))) recent) in
    omega (arith, s, k)

rolled_until-put_hour :
    (host : ℕ) (new : Hour) (hs : List Hour)
    → rolled_until host hs ≤ rolled_until host (put_hour new hs)
unfolding rolled_until put_hour is_hour
rolled_until-put_hour host new [] = omega arith
rolled_until-put_hour host new (x ∷ xs) = let i = rolled_until-put_hour host new xs in ground arith

rolled_until-put_hours :
    (host : ℕ) (accs hs : List Hour) → rolled_until host hs ≤ rolled_until host (put_hours accs hs)
unfolding put_hours
rolled_until-put_hours host [] hs = omega arith
rolled_until-put_hours host (a ∷ accs) hs =
    omega (arith, rolled_until-put_hour host a hs, rolled_until-put_hours host accs (put_hour a hs))

or_true : (a : Bool) → (a || true) ≡ true
or_true true = refl
or_true false = refl

or_swap : (a b c : Bool) → (a || (b || c)) ≡ ((b || a) || c)
or_swap a b c = ground arith

has_hour-put_hours :
    (host hour : ℕ) (accs hs : List Hour)
    → (has_hour host hour accs || has_hour host hour hs) ≡ true
    → has_hour host hour (put_hours accs hs) ≡ true
unfolding put_hours
has_hour-put_hours host hour [] hs h = h
has_hour-put_hours host hour (a ∷ accs) hs h = has_hour-put_hours host hour accs (put_hour a hs) (
    ap (λ b. has_hour host hour accs || b) (has_hour-put_hour host hour a hs)
    ∙ or_swap (has_hour host hour accs) (is_hour host hour a) (has_hour host hour hs)
    ∙ h)

All-imp {ℓ κ μ} :
    {A : Type ℓ} (P : A → Type κ) (Q : A → Type μ)
    → ((x : A) → P x → Q x)
    → (xs : List A) → All P xs
    → All Q xs
All-imp P Q f [] p = tt
All-imp P Q f (x ∷ xs) p = (f x p.0, All-imp P Q f xs p.1)

accumulated :
    (u : Reply) (b : Bool) (us : List Reply)
    → b ≡ true
    → has_hour u.host_id (hour_of u.at) (accumulate_all (if b then u ∷ us else us)) ≡ true
unfolding accumulate_all is_hour
accumulated u b us e =
    rw (e) (has_hour-accumulate u.host_id (hour_of u.at) u (accumulate_all us) ∙ ground arith)

still :
    (x u : Reply) (b : Bool) (us : List Reply)
    → has_hour x.host_id (hour_of x.at) (accumulate_all us) ≡ true
    → has_hour x.host_id (hour_of x.at) (accumulate_all (if b then u ∷ us else us)) ≡ true
unfolding accumulate_all
still x u true us h =
    has_hour-accumulate x.host_id (hour_of x.at) u (accumulate_all us)
    ∙ ap (λ b. is_hour x.host_id (hour_of x.at) (one_call u) || b) h
    ∙ or_true (is_hour x.host_id (hour_of x.at) (one_call u))
still x u false us h = h

not_due_hour :
    (now : ℕ) (u : Reply) (hs : List Hour)
    → has_hour u.host_id (hour_of u.at) hs ≡ true
    → is_due now hs u ≡ false
not_due_hour now u hs h = let r = has_hour-rolled u.host_id (hour_of u.at) hs in ground arith

still_not_due :
    (now : ℕ) (u : Reply) (hs later : List Hour)
    → rolled_until u.host_id hs ≤ rolled_until u.host_id later
    → is_due now hs u ≡ false
    → is_due now later u ≡ false
still_not_due now u hs later more e = ground arith

keep-none :
    (us : List Reply) (test : Reply → Bool) → All (λ u. test u ≡ false) us → keep test us ≡ []
keep-none [] test h = refl
keep-none (u ∷ us) test h = let i = keep-none us test h.1 in let e = h.0 in ground arith

-- A row that is due has an accumulator.
has_hour-due :
    (now : ℕ) (hs : List Hour) (us : List Reply)
    → All
        (λ u.
          is_due now hs u ≡ true
          → has_hour u.host_id (hour_of u.at) (accumulate_all (keep (is_due now hs) us)) ≡ true)
        us
unfolding accumulate_all
has_hour-due now hs [] = tt
has_hour-due now hs (u ∷ us) = (
  (λ e. accumulated u (is_due now hs u) (keep (is_due now hs) us) e),
  All-imp
      (λ x.
        is_due now hs x ≡ true
        → has_hour x.host_id (hour_of x.at) (accumulate_all (keep (is_due now hs) us)) ≡ true)
      (λ x.
        is_due now hs x ≡ true
        → has_hour x.host_id (hour_of x.at) (accumulate_all (keep (is_due now hs) (u ∷ us))) ≡ true)
      (λ x known e. still x u (is_due now hs u) (keep (is_due now hs) us) (known e)) us
      (has_hour-due now hs us),
)

-- A row that was due is not due again, and no other has become so.
not_due :
    (now : ℕ) (l : Ledger) (u : Reply)
    → (is_due now l.hourly u ≡ true
        → has_hour u.host_id (hour_of u.at) (accumulate_all (keep (is_due now l.hourly) l.raw))
          ≡ true)
    → is_due now (rollup now l).hourly u ≡ false
unfolding rollup
not_due now l u known =
    let accs = accumulate_all (keep (is_due now l.hourly) l.raw) in
    let more = rolled_until-put_hours u.host_id accs l.hourly in
    elim (Bool-cases (is_due now l.hourly u)) [
      | inl e ↦ not_due_hour now u (put_hours accs l.hourly) (
          has_hour-put_hours u.host_id (hour_of u.at) accs l.hourly
            (ap (λ b. b || has_hour u.host_id (hour_of u.at) l.hourly) (known e)))
      | inr e ↦ still_not_due now u l.hourly (put_hours accs l.hourly) more e
    ]

-- A second rollup at the same time changes no hourly row.
pub rollup-again :
    (now : ℕ) (l : Ledger) → (rollup now (rollup now l)).hourly ≡ (rollup now l).hourly
unfolding rollup accumulate_all put_hours
rollup-again now l =
    let kept =
      All-keep (λ u. is_due now (rollup now l).hourly u ≡ false)
        (λ u. not (ltb u.at (now - raw_ms))) l.raw
        (All-imp
          (λ u.
            is_due now l.hourly u ≡ true
            → has_hour u.host_id (hour_of u.at) (accumulate_all (keep (is_due now l.hourly) l.raw))
              ≡ true)
          (λ u. is_due now (rollup now l).hourly u ≡ false) (not_due now l) l.raw
          (has_hour-due now l.hourly l.raw)) in
    ap (λ us. put_hours (accumulate_all us) (rollup now l).hourly)
      (keep-none (rollup now l).raw (is_due now (rollup now l).hourly) kept)
