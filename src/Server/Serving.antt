-- ===== src/Server/Serving.antt =====
-- One request through the whole server, while no other goroutine uses the pools: `HandleRequest` of
-- server/handlers.go, the dispatcher that it asks, and what becomes of the connection.
pub mod Asked
pub mod Ending
pub mod Found
pub mod Settled
use Prim.Native.String.{String}
use wsp.Base.{ℕ, Bool, List, Option, none, some, length}
use wsp.Base.Maps.{at, store}
use wsp.Runtime.{Result, ok, blocks, ◌>>=◌}
use wsp.Server.Pool.{Pool, give, close_in}
use wsp.Server.Proxy.{Exchange}
use wsp.Server.Handlers.{
  HandlerError, Try, good, bad, Get, HandlerConfig, Front, no_proxy_target, Disposal, unused, gave,
  closed_it, Handled, Surroundings, target_of, tunnel, refuse,
}
use wsp.Server.Dispatch.{Server, Dispatched, served, refused, waits, out_of_fuel, dispatch_request}

-- What the request depends on besides the pools: whether its destination can be parsed, the
-- exchange on a connection, the rounds and the number of the dispatcher, and the time.
pub record Setting : Type 0 where
  pub describe : HandlerError → String
  pub config : HandlerConfig
  pub get : Get
  pub parses : String → Bool
  pub exchange : ℕ → Exchange
  pub fuel : ℕ
  pub thread : ℕ
  pub now : ℕ

-- A connection keeps a pointer to its pool, which stands under the client's key.
abbrev pub in_pool : String → (Pool → Result Pool) → Server → Result Server
in_pool id f s = elim (at s.pools id) [
  | none ↦ ok s
  | some p ↦ do q ← f p; ok (record s { pools = store s.pools id q })
]

-- The connection is given back or closed.
unfoldable pub settle : ℕ → String → Disposal → Server → Result Server
settle now id unused s = ok s
settle now id (gave c) s = in_pool id (give now c) s
settle now id (closed_it c) s = in_pool id (close_in c) s

module _ (w : Setting) where
  open w use {describe, config, get, parses, exchange, fuel, thread, now}

  -- What the handler sees, with the connection that the dispatcher has sent.
  abbrev pub seen : Server → Option ℕ → Surroundings
  seen s found = record {
    parses = parses;
    pools = length s.pools;
    dispatch = λ _. found;
    exchange = exchange;
  }

  -- The handler waits for the dispatcher, and goes on with what it sends.
  unfoldable pub go_on : String → Front → Dispatched → Server → Result (Handled × Server)
  go_on id f (served c) s = do
    h ← tunnel describe (seen s (some c)) c f
    t ← settle now id h.disposal s
    ok (h, t)
  go_on id f refused s = do h ← refuse describe (no_proxy_target id) f; ok (h, s)
  go_on id f waits s = blocks
  go_on id f out_of_fuel s = blocks

  unfoldable pub serve_request : Front → Server → Result (Handled × Server)
  serve_request f s = elim (target_of config get parses (length s.pools)) [
    | bad e ↦ do h ← refuse describe e f; ok (h, s)
    | good id ↦ let (d, t) = dispatch_request fuel thread id s in go_on id f d t
  ]
