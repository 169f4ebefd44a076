-- ===== src/Server/Dispatch/Loop/Uses.antt =====
-- The pools of the main goroutine stay running while other goroutines use their connections.
use wsp.Base.{ℕ, ◌≡◌, refl, sym, List, [], ◌∷◌}
use wsp.Runtime.{Returns}
use wsp.Server.Pool.{Pool}
use wsp.Server.Pool.Lifecycle.{IsRunning}
use wsp.Server.Pool.Lifecycle.Return.{give-IsRunning, close_in-IsRunning, take_front-IsRunning}
use wsp.Server.Dispatch.Loop.{Use, receives, gives, closes, receive_idle, use_pool}

receive_idle-IsRunning :
    (l : List ℕ) (p : Pool) → l ≡ p.idle_chan.buffer → IsRunning p → IsRunning (receive_idle l p)
receive_idle-IsRunning [] p e r = r
receive_idle-IsRunning (c ∷ rest) p e r = take_front-IsRunning c rest p (sym e) r

-- A running pool that is used goes on running.
pub use_pool-IsRunning : (u : Use) (p : Pool) → IsRunning p → Returns (use_pool u p) IsRunning
unfolding use_pool
use_pool-IsRunning receives p r = receive_idle-IsRunning p.idle_chan.buffer p refl r
use_pool-IsRunning (gives now c) p r = give-IsRunning now c p r
use_pool-IsRunning (closes c) p r = close_in-IsRunning c p r
