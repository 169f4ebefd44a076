-- ===== src/Server/Serving/Settled.antt =====
-- What `settle` leaves of the pool of a connection that a dispatcher has handed out.
use Prim.Native.String.{String}
use wsp.Base.{ℕ, ◌≡◌, List, some, arith}
use wsp.Base.Maps.{at, store, at-store_self, AllAt-store, AllAt-at}
use wsp.Runtime.{Result, ok, Returns, Returns-mono, Returns-ok}
use wsp.Server.Connection.{closed}
use wsp.Server.Pool.{Pool, give, close_in}
use wsp.Server.Pool.Lifecycle.{IsRunning}
use wsp.Server.Pool.Lifecycle.Return.{IsLast, give-IsLast, close_in-closed}
use wsp.Server.Handlers.{gave, closed_it}
use wsp.Server.Dispatch.{Server, served}
use wsp.Server.Dispatch.Register.{AllRunning}
use wsp.Server.Dispatch.Taken.{HasRoom}
use wsp.Server.Serving.{in_pool, settle}

-- The pool of the client, and what holds of it.
abbrev pub InPool : String → (Pool → Type 0) → Server → Type 0
InPool id P s = (q : Pool) × (at s.pools id ≡ some q) × P q

-- An operation on the client's pool that keeps it running.
in_pool-InPool :
    (id : String) (f : Pool → Result Pool) (P : Pool → Type 0) (s : Server) (p : Pool)
    → at s.pools id ≡ some p
    → AllRunning s
    → Returns (f p) (λ q. IsRunning q × P q)
    → (t : Server) × (in_pool id f s ≡ ok t) × AllRunning t × InPool id P t
in_pool-InPool id f P s p found all h =
    let (q, e, (run, holds)) = Returns-ok (f p) h in
    (
      record s { pools = store s.pools id q },
      simp (found, in_pool, e),
      AllAt-store IsRunning s.pools id q all run,
      (q, at-store_self s.pools id q, holds),
    )

-- Giving back a connection that the dispatcher has handed out.
pub settle-gave :
    (now : ℕ) (id : String) (c : ℕ) (s : Server)
    → AllRunning s
    → HasRoom id (served c) s
    → (t : Server) × (settle now id (gave c) s ≡ ok t)
      × AllRunning t
      × InPool id (λ q. (l : List ℕ) × IsLast c l q) t
unfolding settle
settle-gave now id c s all (p, found, b, room) = in_pool-InPool id (give now c) _ s p found all (
    Returns-mono (give now c p) _ _
      (give-IsLast now c p (AllAt-at IsRunning s.pools id p all found) (ground (arith, b)) room)
      λ q h. (h.0, (p.idle_chan.buffer, h.1)))

pub settle-closed_it :
    (now : ℕ) (id : String) (c : ℕ) (s : Server)
    → AllRunning s
    → HasRoom id (served c) s
    → (t : Server) × (settle now id (closed_it c) s ≡ ok t)
      × AllRunning t
      × InPool id (λ q. (q.heap c).status ≡ closed) t
unfolding settle
settle-closed_it now id c s all (p, found, b, room) =
    in_pool-InPool id (close_in c) _ s p found all
      (close_in-closed c p (AllAt-at IsRunning s.pools id p all found))
