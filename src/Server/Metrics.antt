-- ===== src/Server/Metrics.antt =====
-- `saveMetrics` of server/server.go, which turns what `cleanPools` has counted into gauges.
pub mod Total
use Prim.Native.String
use Prim.Native.String.{String}
use wsp.Base.{ℕ, zero, suc, ◌+◌, ◌/◌, ◌%◌, List, [], ◌∷◌, ltb, leb, if◌then◌else◌}
use wsp.Base.Maps.{count_at, add_at}
use wsp.Server.Pool.Keeper.{PoolSize}

-- The gauges of server/metrics.go that `saveMetrics` sets, each with its label.
pub record Gauges : Type 0 where
  pub pool_conns : List (String × ℕ)
  pub total : ℕ
  pub busy : ℕ
  pub idle : ℕ
  pub closed : ℕ
  pub pools : ℕ

-- The largest label, which also takes what lies above it.
abbrev pub max_label : ℕ
max_label = 11

-- A decimal digit.
digit : ℕ → String
digit zero = "0"
digit (suc zero) = "1"
digit (suc (suc zero)) = "2"
digit (suc (suc (suc zero))) = "3"
digit (suc (suc (suc (suc zero)))) = "4"
digit (suc (suc (suc (suc (suc zero))))) = "5"
digit (suc (suc (suc (suc (suc (suc zero)))))) = "6"
digit (suc (suc (suc (suc (suc (suc (suc zero))))))) = "7"
digit (suc (suc (suc (suc (suc (suc (suc (suc zero)))))))) = "8"
digit (suc (suc (suc (suc (suc (suc (suc (suc (suc n))))))))) = "9"

-- `"%02d"` of a number below a hundred, with a plus sign behind the largest label.
unfoldable pub label : ℕ → String
unfolding digit
label n =
    String.◌++◌ (String.◌++◌ (digit (n / 10)) (digit (n % 10)))
      (if leb max_label n then "+" else "")

-- The first loop: what lies above the largest label is added to it.
unfoldable pub fold_large : List (ℕ × ℕ) → List (ℕ × ℕ) → List (ℕ × ℕ)
fold_large [] m = m
fold_large (entry ∷ rest) m =
    fold_large rest (if ltb max_label entry.0 then add_at max_label entry.1 m else m)

-- The second loop, with the rounds left, from `n` on.
unfoldable pub label_loop : ℕ → ℕ → List (ℕ × ℕ) → List (String × ℕ)
label_loop zero n m = []
label_loop (suc rounds) n m = (label n, count_at m n) ∷ label_loop rounds (suc n) m

-- `saveMetrics`, with metrics enabled, for a server with so many pools.
unfoldable pub save_metrics : ℕ → PoolSize → List (ℕ × ℕ) → Gauges
unfolding fold_large label_loop
save_metrics pools totals conns_per_pool = record {
  pool_conns = label_loop max_label 1 (fold_large conns_per_pool conns_per_pool);
  total = totals.total;
  busy = totals.busy_total;
  idle = totals.idle_total;
  closed = totals.closed_total;
  pools = pools;
}
