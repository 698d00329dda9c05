-- ===== src/Usage/Examples.antt =====
-- The rollup at concrete rows.
use homedash.Prelude.{ℕ, [], ◌∷◌}
use homedash.Usage.{Tokens, Reply, Ledger}

abbrev reply_at : ℕ → Reply
reply_at at = record {
  host_id = 1;
  job_id = 4;
  at = at;
  model = "m";
  tokens = record { input = 30; output = 2; cache_read = 0; cache_write = 0 };
}

abbrev ledger : Ledger
ledger = record { raw = reply_at 3600001 ∷ reply_at 9000000 ∷ []; hourly = [] }

abbrev input_of : Tokens → ℕ
input_of t = t.input
