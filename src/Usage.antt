-- ===== src/Usage.antt =====
-- hub/internal/store/hosts.go: the tokens that the machines' jobs use, the hourly rollup of them, and the
-- totals. Times are milliseconds; an hour is its number since the epoch. The cost is a float and is
-- left out, and `pruneUsage` with it, which drops rows of two other tables.
pub mod Rollup
pub mod Sums
pub mod Examples
use Prim.Native.Nat.{◌/◌}
use homedash.Prelude.{
  ℕ, zero, suc, ◌+◌, ◌-◌, ◌*◌, String, Bool, true, false, not, ◌&&◌, List, [], ◌∷◌, ◌++◌, ltb, leb,
  ◌==◌, if◌then◌else◌, keep,
}

-- The counters of `Usage`.
pub record Tokens : Type 0 where
  pub input : ℕ
  pub output : ℕ
  pub cache_read : ℕ
  pub cache_write : ℕ

abbrev pub add_tokens : Tokens → Tokens → Tokens
add_tokens a b = record {
  input = a.input + b.input;
  output = a.output + b.output;
  cache_read = a.cache_read + b.cache_read;
  cache_write = a.cache_write + b.cache_write;
}

-- A row of the usage table.
pub record Reply : Type 0 where
  pub host_id : ℕ
  pub job_id : ℕ
  pub at : ℕ
  pub model : String
  pub tokens : Tokens

-- A row of usage_hourly.
pub record Hour : Type 0 where
  pub host_id : ℕ
  pub hour : ℕ
  pub tokens : Tokens
  pub calls : ℕ

pub record Ledger : Type 0 where
  pub raw : List Reply
  pub hourly : List Hour

abbrev pub hour_ms : ℕ
hour_ms = 3600000

unfoldable pub hour_of : ℕ → ℕ
hour_of at = at / hour_ms

-- `RecordUsage`.
unfoldable pub record_usage : Reply → Ledger → Ledger
record_usage u l = record l { raw = l.raw ++ u ∷ [] }

-- The first hour after the last one of the host in the rollup; 0 if there is none.
unfoldable pub rolled_until : ℕ → List Hour → ℕ
rolled_until host [] = 0
rolled_until host (h ∷ hs) =
    let rest = rolled_until host hs in
    if h.host_id == host && leb rest h.hour then suc h.hour else rest

-- The rows that a rollup reads.
abbrev pub is_due : ℕ → List Hour → Reply → Bool
is_due now hourly u =
    ltb (hour_of u.at) (hour_of now) && leb (rolled_until u.host_id hourly) (hour_of u.at)

unfoldable pub is_hour : ℕ → ℕ → Hour → Bool
is_hour host hour h = h.host_id == host && h.hour == hour

abbrev pub one_call : Reply → Hour
one_call u = record { host_id = u.host_id; hour = hour_of u.at; tokens = u.tokens; calls = 1 }

abbrev pub add_call : Reply → Hour → Hour
add_call u a = record a { tokens = add_tokens a.tokens u.tokens; calls = suc a.calls }

-- The accumulators, by host and hour.
unfoldable pub accumulate : Reply → List Hour → List Hour
accumulate u [] = one_call u ∷ []
accumulate u (a ∷ accs) =
    let rest = accumulate u accs in
    if is_hour u.host_id (hour_of u.at) a then add_call u a ∷ accs else a ∷ rest

unfoldable pub accumulate_all : List Reply → List Hour
accumulate_all [] = []
accumulate_all (u ∷ us) = accumulate u (accumulate_all us)

-- INSERT OR REPLACE.
unfoldable pub put_hour : Hour → List Hour → List Hour
put_hour new [] = new ∷ []
put_hour new (h ∷ hs) =
    let rest = put_hour new hs in if is_hour new.host_id new.hour h then new ∷ hs else h ∷ rest

unfoldable pub put_hours : List Hour → List Hour → List Hour
put_hours [] hs = hs
put_hours (a ∷ accs) hs = put_hours accs (put_hour a hs)

-- Two days.
abbrev pub raw_ms : ℕ
raw_ms = 172800000

-- `RollupUsage`.
unfoldable pub rollup : ℕ → Ledger → Ledger
rollup now l = record {
  raw = keep (λ u. not (ltb u.at (now - raw_ms))) l.raw;
  hourly = put_hours (accumulate_all (keep (is_due now l.hourly) l.raw)) l.hourly;
}

-- The sums of `UsageTotals`, of one of the counters.
unfoldable pub sum_replies : (Tokens → ℕ) → ℕ → ℕ → List Reply → ℕ
sum_replies read host since [] = 0
sum_replies read host since (u ∷ us) =
    let rest = sum_replies read host since us in
    if u.host_id == host && leb since u.at then read u.tokens + rest else rest

unfoldable pub sum_hours : (Tokens → ℕ) → ℕ → ℕ → List Hour → ℕ
sum_hours read host since [] = 0
sum_hours read host since (h ∷ hs) =
    let rest = sum_hours read host since hs in
    if h.host_id == host && leb since (h.hour * hour_ms) then read h.tokens + rest else rest

-- `UsageTotals`, for one host and one counter.
unfoldable pub usage_total : (Tokens → ℕ) → ℕ → ℕ → Ledger → ℕ
usage_total read host since l =
    sum_hours read host since l.hourly + sum_replies read host since l.raw
