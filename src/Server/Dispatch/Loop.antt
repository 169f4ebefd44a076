-- ===== src/Server/Dispatch/Loop.antt =====
-- `StartDispatcher` of server/server.go, the loop of the main goroutine: one event after the other,
-- and `shutdown` when `newPool` has been closed. Between its events the other goroutines use the
-- connections of its pools.
pub mod Uses
pub mod Clients
pub mod Counters
pub mod Refines
pub mod Ends
pub mod Statistics
pub mod Tables
use Prim.Native.String.{String}
use wsp.Base.{ℕ, Bool, true, false, List, [], ◌∷◌, ◌++◌, Option, none, some}
use wsp.Base.Maps.{at, store}
use wsp.Runtime.{Result, ok, ◌>>=◌}
use wsp.Server.Pool.{Pool, take_in, give, close_in}
use wsp.Server.Metrics.{Gauges}
use wsp.Server.Dispatch.{
  Server, PoolConfig, GetPoolMessage, World, register_pool, clean_pools, get_pool, shutdown,
}
use wsp.Server.Dispatch.Stats.{Stats, stats}

-- What another goroutine does with a pool: a dispatcher takes the next idle connection, the handler
-- of a request gives its connection back at some time, or a connection is closed.
pub data Use : Type 0 where
  receives : Use
  gives : ℕ → ℕ → Use
  closes : ℕ → Use

-- The receive of `dispatchRequest`, when there is a connection in the channel, and its `Take`.
abbrev pub receive_idle : List ℕ → Pool → Pool
receive_idle [] p = p
receive_idle (c ∷ rest) p =
    (take_in c (record p { idle_chan = record p.idle_chan { buffer = rest } })).0

unfoldable pub use_pool : Use → Pool → Result Pool
use_pool receives p = ok (receive_idle p.idle_chan.buffer p)
use_pool (gives now c) p = give now c p
use_pool (closes c) p = close_in c p

-- A receive of the `select`, or the use of the pool of a client.
pub data Event : Type 0 where
  new_pool : World → PoolConfig → Event
  get_pool_asked : ℕ → String → Event
  cleaner_ticked : World → Event
  get_stats_asked : World → String → Event
  used : String → Use → Event

-- What the main goroutine sends back.
pub data Reply : Type 0 where
  no_reply : Reply
  rep_pool : Option Pool → Reply
  rep_stats : Stats → Reply

abbrev pub use_entry : String → Use → Server → Option Pool → Result Server
use_entry key u s none = ok s
use_entry key u s (some p) = do q ← use_pool u p; ok (record s { pools = store s.pools key q })

-- One round of the loop of `StartDispatcher`, or what happens before the next.
unfoldable pub on_event : Event → Server → Result (Server × Reply)
on_event (new_pool w client) s = do t ← register_pool w client s; ok (t, no_reply)
on_event (get_pool_asked thread key) s =
    ok ((get_pool thread key s).1, rep_pool (get_pool thread key s).0)
on_event (cleaner_ticked w) s = do r ← clean_pools w s; ok (r.0, no_reply)
on_event (get_stats_asked w id) s = ok (s, rep_stats (stats w.remote w.now id s))
on_event (used key u) s = do t ← use_entry key u s (at s.pools key); ok (t, no_reply)

-- The loop, with the replies that it sends.
unfoldable pub run : List Event → Server → Result (Server × List Reply)
run [] s = ok (s, [])
run (e ∷ es) s = do (t, reply) ← on_event e s; (u, replies) ← run es t; ok (u, reply ∷ replies)

-- `StartDispatcher`: the deferred `shutdown` follows the loop. The dispatchers that it starts are
-- those of Server/Dispatch/Threads; `messages` is what they send on `getPool` from then on.
unfoldable pub start_dispatcher :
    World → List Event → List GetPoolMessage → Server → Result (Server × List Pool)
start_dispatcher w es messages s = do r ← run es s; shutdown w messages r.0
