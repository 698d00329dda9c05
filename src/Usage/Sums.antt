-- ===== src/Usage/Sums.antt =====
-- hub/internal/store/hosts.go: the sums of the accumulators and of the hourly rows.
use homedash.Prelude.{
  ℕ, ◌+◌, ◌≤◌, ◌≡◌, refl, ◌∙◌, Bool, true, false, ◌&&◌, ◌||◌, List, [], ◌∷◌, ltb, leb, ◌==◌,
  if◌then◌else◌, keep, any, Bool-cases, inl, inr, leb→le, arith,
}
use homedash.Usage.{
  Tokens, add_tokens, Reply, Hour, hour_of, rolled_until, is_due, is_hour, one_call, accumulate,
  accumulate_all, put_hour, put_hours, sum_replies, sum_hours,
}

-- Whether there is a row of the host and hour.
abbrev pub has_hour : ℕ → ℕ → List Hour → Bool
has_hour host hour = any (is_hour host hour)

sum-accumulate :
    (read : Tokens → ℕ)
    → ((a b : Tokens) → read (add_tokens a b) ≡ read a + read b)
    → (host : ℕ) (u : Reply) (accs : List Hour)
    → sum_hours read host 0 (accumulate u accs) ≡ (
        if u.host_id == host
        then read u.tokens + sum_hours read host 0 accs
        else sum_hours read host 0 accs)
unfolding accumulate sum_hours is_hour
sum-accumulate read add host u [] = ground arith
sum-accumulate read add host u (a ∷ accs) =
    let i = sum-accumulate read add host u accs in let e = add a.tokens u.tokens in ground arith

pub sum-accumulate_all :
    (read : Tokens → ℕ)
    → ((a b : Tokens) → read (add_tokens a b) ≡ read a + read b)
    → (host : ℕ) (us : List Reply)
    → sum_hours read host 0 (accumulate_all us) ≡ sum_replies read host 0 us
unfolding accumulate_all sum_replies sum_hours
sum-accumulate_all read add host [] = refl
sum-accumulate_all read add host (u ∷ us) =
    let i = sum-accumulate_all read add host us in
    let j = sum-accumulate read add host u (accumulate_all us) in ground arith

sum-put_hour :
    (read : Tokens → ℕ) (host : ℕ) (new : Hour) (hs : List Hour)
    → has_hour new.host_id new.hour hs ≡ false
    → sum_hours read host 0 (put_hour new hs) ≡ sum_hours read host 0 (new ∷ hs)
unfolding put_hour sum_hours
sum-put_hour read host new [] h = refl
sum-put_hour read host new (x ∷ xs) h = let i = sum-put_hour read host new xs in ground arith

-- The accumulators have each key once, and none that the hourly rows have.
abbrev pub Apart : List Hour → List Hour → Type 0
Apart [] hs = Unit {0}
Apart (a ∷ accs) hs =
    (has_hour a.host_id a.hour hs ≡ false)
    × ((has_hour a.host_id a.hour accs ≡ false) × Apart accs hs)

pub has_hour-put_hour :
    (host hour : ℕ) (new : Hour) (hs : List Hour)
    → has_hour host hour (put_hour new hs) ≡ (is_hour host hour new || has_hour host hour hs)
unfolding put_hour is_hour
has_hour-put_hour host hour new [] = ground arith
has_hour-put_hour host hour new (x ∷ xs) =
    let i = has_hour-put_hour host hour new xs in ground arith

or_right : (a b : Bool) → (a || b) ≡ false → b ≡ false
or_right a b h = ground arith

and_right : (a b : Bool) → (a && b) ≡ true → b ≡ true
and_right a b h = ground arith

is_hour-either :
    (a new : Hour) (b c : Bool)
    → b ≡ false
    → (is_hour new.host_id new.hour a || c) ≡ false
    → (is_hour a.host_id a.hour new || b) ≡ false
unfolding is_hour
is_hour-either a new b c h k = ground arith

is_hour-flip :
    (a : Hour) (u : Reply) (b : Bool)
    → is_hour u.host_id (hour_of u.at) a ≡ false
    → b ≡ false
    → (is_hour a.host_id a.hour (one_call u) || b) ≡ false
unfolding is_hour
is_hour-flip a u b h k = ground arith

Apart-put_hour :
    (new : Hour) (accs hs : List Hour)
    → Apart accs hs
    → has_hour new.host_id new.hour accs ≡ false
    → Apart accs (put_hour new hs)
Apart-put_hour new [] hs d h = tt
Apart-put_hour new (a ∷ accs) hs d h = (
  has_hour-put_hour a.host_id a.hour new hs
      ∙ is_hour-either a new (has_hour a.host_id a.hour hs) (has_hour new.host_id new.hour accs) d.0
          h,
  (
    d.1.0,
    Apart-put_hour new accs hs d.1.1
        (or_right (is_hour new.host_id new.hour a) (has_hour new.host_id new.hour accs) h),
  ),
)

pub sum-put_hours :
    (read : Tokens → ℕ) (host : ℕ) (accs hs : List Hour)
    → Apart accs hs
    → sum_hours read host 0 (put_hours accs hs)
      ≡ sum_hours read host 0 accs + sum_hours read host 0 hs
unfolding put_hours sum_hours
sum-put_hours read host [] hs d = omega arith
sum-put_hours read host (a ∷ accs) hs d =
    let i = sum-put_hours read host accs (put_hour a hs) (Apart-put_hour a accs hs d.1.1 d.1.0) in
    let j = sum-put_hour read host a hs d.0 in ground arith

pub has_hour-accumulate :
    (host hour : ℕ) (u : Reply) (accs : List Hour)
    → has_hour host hour (accumulate u accs)
      ≡ (is_hour host hour (one_call u) || has_hour host hour accs)
unfolding accumulate is_hour
has_hour-accumulate host hour u [] = ground arith
has_hour-accumulate host hour u (a ∷ accs) =
    let i = has_hour-accumulate host hour u accs in ground arith

Apart-accumulate :
    (u : Reply) (accs hs : List Hour)
    → Apart accs hs
    → has_hour u.host_id (hour_of u.at) hs ≡ false
    → Apart (accumulate u accs) hs
unfolding accumulate
Apart-accumulate u [] hs d h = (h, (refl, tt))
Apart-accumulate u (a ∷ accs) hs d h = elim (Bool-cases (is_hour u.host_id (hour_of u.at) a)) [
  | inl e ↦ rw (e) (d.0, (d.1.0, d.1.1))
  | inr e ↦ rw (e) (
    d.0,
    (
      has_hour-accumulate a.host_id a.hour u accs
          ∙ is_hour-flip a u (has_hour a.host_id a.hour accs) e d.1.0,
      Apart-accumulate u accs hs d.1.1 h,
    ),
  )
]

-- A row that is due has no hourly row.
pub has_hour-rolled :
    (host hour : ℕ) (hs : List Hour) → rolled_until host hs ≤ hour → has_hour host hour hs ≡ false
unfolding rolled_until is_hour
has_hour-rolled host hour [] h = refl
has_hour-rolled host hour (x ∷ xs) h = let i = has_hour-rolled host hour xs in ground arith

pub Apart-due :
    (now : ℕ) (us : List Reply) (hs : List Hour)
    → Apart (accumulate_all (keep (is_due now hs) us)) hs
unfolding accumulate_all
Apart-due now [] hs = tt
Apart-due now (u ∷ us) hs = elim (Bool-cases (is_due now hs u)) [
  | inl e ↦ rw (e) (
      Apart-accumulate u (accumulate_all (keep (is_due now hs) us)) hs (Apart-due now us hs) (
        has_hour-rolled u.host_id (hour_of u.at) hs (
          leb→le (rolled_until u.host_id hs) (hour_of u.at) (
            and_right (ltb (hour_of u.at) (hour_of now))
              (leb (rolled_until u.host_id hs) (hour_of u.at)) e))))
  | inr e ↦ rw (e) (Apart-due now us hs)
]
