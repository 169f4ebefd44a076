-- ===== src/Server/Dispatch.antt =====
-- server/server.go: the main goroutine of the server, which owns the pools, and the dispatchers.
-- What the main goroutine does is a function on the state; time and addresses are arguments.
pub mod Arrival
pub mod Clean
pub mod Loop
pub mod Request
pub mod Stats
pub mod Taken
pub mod Register
pub mod Threads
use Prim.Native.String
use Prim.Native.String.{String}
use wsp.Base.{
  ℕ, zero, suc, ◌+◌, ◌%◌, ◌^◌, Bool, true, false, List, [], ◌∷◌, ◌++◌, Option, none, some, length,
  ◌==◌, if◌then◌else◌,
}
use wsp.Base.Maps.{at, store, add_at}
use wsp.Mulch.{Handshake, hash_key_id}
use wsp.Runtime.{Result, ok, panics, blocks, ◌>>=◌, nil_dereference, close_flag, receive}
use wsp.Server.Pool.{Pool, new_pool, take_in}
use wsp.Server.Pool.Keeper.{PoolSize, register, is_empty, shut_down, ask_for_size}
use wsp.Server.Metrics.{Gauges, save_metrics}

-- `PoolConfig`; the socket is the one that the handler has upgraded.
pub record PoolConfig : Type 0 where
  pub handshake : Handshake
  pub secret : String

-- The state of the main goroutine. Of the channels their being open is kept.
pub record Server : Type 0 where
  pub dispatchers : ℕ
  pub idle_timeout : ℕ
  pub pools : List (String × Pool)
  pub closed : ℕ
  pub thread_count : ℕ → ℕ
  pub new_pool_open : Bool
  pub dispatcher_open : Bool
  pub get_pool_open : Bool
  pub rep_pool_open : Bool
  pub get_stats_open : Bool
  pub rep_stats_open : Bool

-- What the code takes from elsewhere: the digest, the longest buffer of a channel, the addresses of
-- the sockets, and the clock, which `clean` reads at each connection.
pub record World : Type 0 where
  pub sha256_hex : String → String
  pub chan_limit : ℕ
  pub remote : ℕ → String
  pub now : ℕ
  pub clock : ℕ → ℕ

-- What `cleanPools` adds up over the pools: those that are left, and the counts.
pub record Tally : Type 0 where
  pub kept : List (String × Pool)
  pub closed : ℕ
  pub totals : PoolSize
  pub conns_per_pool : List (ℕ × ℕ)

abbrev pub no_sizes : PoolSize
no_sizes = record { total = 0; idle_total = 0; busy_total = 0; closed_total = 0; conns = [] }

abbrev pub add_sizes : PoolSize → PoolSize → PoolSize
add_sizes s t = record s {
  total = s.total + t.total;
  idle_total = s.idle_total + t.idle_total;
  busy_total = s.busy_total + t.busy_total;
  closed_total = s.closed_total + t.closed_total;
}

-- What a dispatcher sends on `getPool`: its number and the client whose pool it wants, or nil when
-- it has ended.
abbrev pub GetPoolMessage : Type 0
GetPoolMessage = Option (ℕ × String)

-- The loop of `shutdown` that receives so often from `getPool`, whatever it receives: it waits for
-- ever when the dispatchers send no more.
unfoldable pub wait_for : ℕ → List GetPoolMessage → Result (List GetPoolMessage)
wait_for zero messages = ok messages
wait_for (suc n) [] = blocks
wait_for (suc n) (m ∷ messages) = wait_for n messages

module _ (w : World) where
  open w use {sha256_hex, chan_limit, remote, now, clock}

  -- The pool that `registerPool` uses: the one that stands under the key, or a new one.
  unfoldable pub pool_for : PoolConfig → String → Server → Result Pool
  pool_for client key s = elim (at s.pools key) [
    | some p ↦ ok p
    | none ↦
        new_pool chan_limit now s.idle_timeout client.handshake
          (String.◌++◌ key (String.◌++◌ " [" (String.◌++◌ client.handshake.name "]")))
  ]

  -- `registerPool`
  unfoldable pub register_pool : PoolConfig → Server → Result Server
  register_pool client s = do
    let key = hash_key_id sha256_hex client.secret client.handshake.id
    p ← pool_for client key s
    q ← register remote now clock p
    ok (record s { pools = store s.pools key q })

  -- One round of the loop of `cleanPools`.
  pub clean_pool : String × Pool → Tally → Result Tally
  clean_pool entry t = do
    (empty, q) ← is_empty remote clock entry.1
    elim empty [
      | true ↦ do r ← shut_down remote q; ok (record t { closed = t.closed + r.closed_count })
      | false ↦ do
        (ps, r) ← ask_for_size remote now q
        ok (record t {
          kept = t.kept ++ (entry.0, r) ∷ [];
          totals = add_sizes t.totals ps;
          conns_per_pool = add_at ps.total 1 t.conns_per_pool;
        })
    ]

  pub clean_pools_loop : List (String × Pool) → Tally → Result Tally
  clean_pools_loop [] t = ok t
  clean_pools_loop (entry ∷ rest) t = do t' ← clean_pool entry t; clean_pools_loop rest t'

  -- `cleanPools`; with no pool nothing is reported.
  unfoldable pub clean_pools : Server → Result (Server × Option Gauges)
  clean_pools s = elim s.pools [
    | [] ↦ ok (s, none)
    | entry ∷ rest ↦ do
      t ←
          clean_pools_loop (entry ∷ rest)
            (record { kept = []; closed = s.closed; totals = no_sizes; conns_per_pool = [] })
      ok (
        record s { pools = t.kept; closed = t.closed },
        some (
            save_metrics (length t.kept)
              (record t.totals { closed_total = t.totals.closed_total + t.closed })
              t.conns_per_pool),
      )
  ]

  -- `shutdown`: the loop over the pools, which are deleted as they are shut down.
  pub shut_pools : List (String × Pool) → Result (List Pool)
  shut_pools [] = ok []
  shut_pools (entry ∷ rest) = do q ← shut_down remote entry.1; qs ← shut_pools rest; ok (q ∷ qs)

  -- `shutdown`: it closes `dispatcher`, waits for the dispatchers, which send `messages`, closes the
  -- other channels, shuts the pools down and empties the table.
  unfoldable pub shutdown : List GetPoolMessage → Server → Result (Server × List Pool)
  shutdown messages s = do
    dispatcher ← close_flag s.dispatcher_open
    rest ← wait_for s.dispatchers messages
    get_pool ← close_flag s.get_pool_open
    rep_pool ← close_flag s.rep_pool_open
    get_stats ← close_flag s.get_stats_open
    rep_stats ← close_flag s.rep_stats_open
    stopped ← shut_pools s.pools
    ok (
      record s {
        pools = [];
        dispatcher_open = dispatcher;
        get_pool_open = get_pool;
        rep_pool_open = rep_pool;
        get_stats_open = get_stats;
        rep_stats_open = rep_stats;
      },
      stopped,
    )

-- `Shutdown`: the main goroutine hears of it when it receives from `newPool`.
unfoldable pub close_new_pool : Server → Result Server
close_new_pool s = do b ← close_flag s.new_pool_open; ok (record s { new_pool_open = b })

-- `NewServer` and `NewConfig`, as far as the main goroutine uses them.
unfoldable pub new_server : ℕ → ℕ → Server
new_server dispatchers idle_timeout = record {
  dispatchers = if dispatchers == 0 then 1 else dispatchers;
  idle_timeout = idle_timeout;
  pools = [];
  closed = 0;
  thread_count = λ _. 0;
  new_pool_open = true;
  dispatcher_open = true;
  get_pool_open = true;
  rep_pool_open = true;
  get_stats_open = true;
  rep_stats_open = true;
}

-- `getPool`: the main goroutine counts the request for the dispatcher, in a `uint64`, and answers.
unfoldable pub get_pool : ℕ → String → Server → Option Pool × Server
get_pool thread key s = (
  at s.pools key,
  record s {
    thread_count = λ t. if t == thread then (s.thread_count t + 1) % 2 ^ 64 else s.thread_count t;
  },
)

-- How `dispatchRequest` ends: with a connection, with the channel of the request closed, or waiting
-- for a connection to become idle.
pub data Dispatched : Type 0 where
  served : ℕ → Dispatched
  refused waits out_of_fuel : Dispatched

-- The loop of `dispatchRequest`, with the rounds left, while no other goroutine uses the pool.
unfoldable pub dispatch_request : ℕ → ℕ → String → Server → Dispatched × Server
dispatch_request zero thread key s = (out_of_fuel, s)
dispatch_request (suc fuel) thread key s =
    let (pool, t) = get_pool thread key s in
    elim pool [
      | none ↦ (refused, t)
      | some p ↦ elim (receive p.idle_chan) [
        | panics _ ↦ (refused, t)
        | blocks ↦ (waits, t)
        | ok (none, _) ↦ (refused, t)
        | ok (some c, ch) ↦
            let (q, taken) = take_in c (record p { idle_chan = ch }) in
            let u = record t { pools = store t.pools key q } in
            elim taken [ true ↦ (served c, u) | false ↦ dispatch_request fuel thread key u ]
      ]
    ]
