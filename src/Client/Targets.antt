-- ===== src/Client/Targets.antt =====
-- client/client.go: the client starts a pool for each target, or for one target at a time.
pub mod Rotation
use Prim.Native.String.{String}
use wsp.Base.{
  ℕ, zero, suc, ◌+◌, Bool, true, false, List, [], ◌∷◌, Option, none, some, length, leb,
  if◌then◌else◌,
}
use wsp.Base.Int.{ℤ, pos, negsuc, ◌+ℤ◌, ltb_ℤ}
use wsp.Base.Maps.{at, store}
use wsp.Runtime.{Result, ok, panics, ◌>>=◌, index_range, by_the_code, send_on_closed}
use wsp.Client.Config.{Config, RoundRobin, check_config}
use wsp.Client.Pool.{Pool, PoolSize, Attempt, size, shut_down}
use wsp.Client.Pool.Keeper.{Keeper}
use wsp.Client.Pool.Keeper.{start as start_pool}

-- The client; its field `lastConn` is kept with the pool that uses it.
pub record Client : Type 0 where
  pub config : Config
  pub target : ℤ
  pub pools : List (String × Keeper)

-- `NewClient`
abbrev pub new_client : Config → Client
new_client config = record { config = check_config config; target = negsuc 0; pools = [] }

-- `Targets[i]`
abbrev pub nth : List String → ℕ → Result String
nth [] i = panics index_range
nth (t ∷ ts) zero = ok t
nth (t ∷ ts) (suc i) = nth ts i

abbrev pub index : List String → ℤ → Result String
index ts (pos i) = nth ts i
index ts (negsuc i) = panics index_range

abbrev pub is_active : Option Keeper → Bool
is_active none = false
is_active (some k) = if k.pool.is_shut_down then false else true

-- Start the pool of a target, unless an active pool stands in its place. `lastConn` is the time
-- given.
unfoldable pub start_target : (String → ℕ → Attempt) → ℕ → ℕ → String → Client → Result Client
start_target attempts now last_conn t c =
    if is_active (at c.pools t) then panics by_the_code else (do
      k ← start_pool (attempts t) c.config now last_conn
      ok (record c { pools = store c.pools t k }))

-- The next target, after the last one the first.
unfoldable pub next_target : Config → ℤ → ℤ
next_target config target =
    if ltb_ℤ (target +ℤ pos 1) (pos (length config.targets)) then target +ℤ pos 1 else pos 0

-- `startOnePool`; the callback is left out.
unfoldable pub start_one_pool : (String → ℕ → Attempt) → ℕ → Client → Result Client
start_one_pool attempts now c =
    let target = next_target c.config c.target in
    do
      t ← index c.config.targets target
      start_target attempts now now t (record c { target = target })

pub start_pools : (String → ℕ → Attempt) → ℕ → List String → Client → Result Client
start_pools attempts now [] c = ok c
start_pools attempts now (t ∷ ts) c = do
  c' ← start_target attempts now 0 t c
  start_pools attempts now ts c'

-- `startAllPools`; without round robin, `lastConn` keeps its zero value.
abbrev pub start_all_pools : (String → ℕ → Attempt) → ℕ → Client → Result Client
start_all_pools attempts now c = start_pools attempts now c.config.targets c

abbrev pub start_by : Option RoundRobin → (String → ℕ → Attempt) → ℕ → Client → Result Client
start_by none attempts now c = start_all_pools attempts now c
start_by (some r) attempts now c = start_one_pool attempts now c

-- `Start`
unfoldable pub start : (String → ℕ → Attempt) → ℕ → Client → Result Client
start attempts now c = start_by c.config.round_robin attempts now c

pub shut_down_all : List (String × Keeper) → List (String × Keeper)
shut_down_all [] = []
shut_down_all (e ∷ rest) = (e.0, record e.1 { pool = shut_down e.1.pool }) ∷ shut_down_all rest

-- `Shutdown`
unfoldable pub shutdown : Client → Client
shutdown c = record c { pools = shut_down_all c.pools }

-- What the goroutine of `restart` does.
unfoldable pub restart : (String → ℕ → Attempt) → ℕ → Client → Result Client
restart attempts now c = start attempts now (shutdown c)

-- `Size`, which asks the goroutine of an active pool.
abbrev pub pool_size : Config → Keeper → Result PoolSize
pool_size config k =
    if k.pool.is_shut_down
    then size config k.last_conn k.pool
    else (if k.is_running then size config k.last_conn k.pool else panics send_on_closed)

pub stats_loop : Config → List (String × Keeper) → Result (List (String × PoolSize))
stats_loop config [] = ok []
stats_loop config (e ∷ rest) = do
  s ← pool_size config e.1
  sizes ← stats_loop config rest
  ok ((e.0, s) ∷ sizes)

-- `PoolStats`
abbrev pub pool_stats : Client → Result (List (String × PoolSize))
pool_stats c = stats_loop c.config c.pools
