-- ===== src/Server/Dispatch/Stats.antt =====
-- `poolStats` and `threadStats` of server/server.go: what the main goroutine says of its pools. The
-- JSON that becomes of it is not modelled; a value of the map is one of the shapes below.
use Prim.Native.String.{String}
use text.Mathlib.Text.{◌==◌ as str_eq}
use wsp.Base.{ℕ, List, [], ◌∷◌, Option, none, some, length, if◌then◌else◌}
use wsp.Base.Int.{ℤ, sub_ℕ}
use wsp.Base.Maps.{at}
use wsp.Mulch.{Handshake}
use wsp.Server.Pool.{Pool}
use wsp.Server.Pool.Keeper.{PoolSize, round_second, size}
use wsp.Server.Dispatch.{Server}

-- What the statistics of all pools say of one.
pub record Detail : Type 0 where
  pub connected : ℕ
  pub duration : ℤ
  pub idle_pool_wait : ℕ
  pub idle_pool_size : ℕ
  pub client : Handshake
  pub sizes : PoolSize

-- A value of the map: nil, the sizes of the pool that was asked for, or the details of one of all.
pub data PoolStat : Type 0 where
  unknown : PoolStat
  of_size : PoolSize → PoolStat
  of_pool : Detail → PoolStat

-- `Stats`
pub record Stats : Type 0 where
  pub pools : List (String × PoolStat)
  pub threads : ℕ → ℕ

-- `threadStats`, which copies the counters one by one.
abbrev pub thread_stats : (ℕ → ℕ) → ℕ → ℕ
thread_stats counts = λ thread. counts thread

module _ (remote : ℕ → String) (now : ℕ) where
  abbrev pub detail : Pool → Detail
  detail p = record {
    connected = p.connected;
    duration = round_second (sub_ℕ now p.connected);
    idle_pool_wait = length p.idle_chan.buffer;
    idle_pool_size = p.idle_chan.cap;
    client = p.handshake;
    sizes = size remote now p;
  }

  -- The loop over all pools.
  unfoldable pub all_stats : List (String × Pool) → List (String × PoolStat)
  all_stats [] = []
  all_stats (entry ∷ rest) = (entry.0, of_pool (detail entry.1)) ∷ all_stats rest

  abbrev pub one_stat : String → Option Pool → List (String × PoolStat)
  one_stat id none = ("id not found", unknown) ∷ []
  one_stat id (some p) = (id, of_size (size remote now p)) ∷ []

  -- `poolStats`
  unfoldable pub pool_stats : String → Server → List (String × PoolStat)
  pool_stats id s = if str_eq id "" then all_stats s.pools else one_stat id (at s.pools id)

  -- The answer to `getStats`.
  abbrev pub stats : String → Server → Stats
  stats id s = record { pools = pool_stats id s; threads = thread_stats s.thread_count }
