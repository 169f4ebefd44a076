-- ===== src/Server/Dispatch/Register.antt =====
-- `registerPool` of server/server.go.
use Prim.Native.String.{String}
use wsp.Base.{ℕ, suc, ◌≤◌, ◌≡◌, refl, ◌≢◌, inl, inr, none, some, Option-cases}
use wsp.Base.Int.{pos, negsuc, inc_int}
use wsp.Base.Maps.{at, store, at-store_self, at-store_ne, AllAt, AllAt-store, AllAt-at}
use wsp.Mulch.{hash_key_id}
use wsp.Runtime.{ok, panics, chan_size, Returns, Returns-ok, Returns-bind, Returns-mono}
use wsp.Server.Pool.{Pool, new_pool}
use wsp.Server.Pool.Keeper.{register}
use wsp.Server.Pool.Lifecycle.{IsRunning, new_pool_lem}
use wsp.Server.Pool.Lifecycle.Placed.{Registered, register-Registered}
use wsp.Server.Dispatch.{Server, PoolConfig, World, pool_for, register_pool}

-- The size that a client asks for is one that the runtime can allocate.
abbrev pub Fits : World → PoolConfig → Type 0
Fits w client = (n : ℕ) × (inc_int client.handshake.max_size ≡ pos n) × (n ≤ w.chan_limit)

abbrev pub key_of : World → PoolConfig → String
key_of w client = hash_key_id w.sha256_hex client.secret client.handshake.id

-- Every pool of the server has its goroutine waiting for messages.
abbrev pub AllRunning : Server → Type 0
AllRunning s = AllAt IsRunning s.pools

module _ (w : World) (client : PoolConfig) (s : Server) where
  pool_for-IsRunning :
      AllRunning s → Fits w client → Returns (pool_for w client (key_of w client) s) IsRunning
  unfolding pool_for
  pool_for-IsRunning all (n, e, h) = elim (Option-cases (at s.pools (key_of w client))) [
    | inl missing ↦
        rw (missing, pool_for)
          (new_pool_lem w.chan_limit w.now s.idle_timeout client.handshake _ n e h)
    | inr (p, found) ↦
        rw (found, pool_for) (AllAt-at IsRunning s.pools (key_of w client) p all found)
  ]

  -- Registering a connection stores the pool that has registered it under the key of the client,
  -- and changes nothing else.
  pub register_pool-stores :
      AllRunning s
      → Fits w client
      → Returns (register_pool w client s) (λ t.
        (p q : Pool) × (pool_for w client (key_of w client) s ≡ ok p)
        × Registered w.now p q
        × (t ≡ record s { pools = store s.pools (key_of w client) q }))
  unfolding register_pool
  register_pool-stores all fits =
      let (p, e, r) =
        Returns-ok (pool_for w client (key_of w client) s) (pool_for-IsRunning all fits) in
      rw e (
        Returns-bind (register w.remote w.now w.clock p) _ (Registered w.now p) _
          (register-Registered w.remote w.now w.clock p r) λ q g. (p, q, refl, g, refl))

  -- Registering a connection returns: the pool of the client's key is running, with every other
  -- entry of the table left as it was.
  pub register_pool-AllRunning :
      (other : String)
      → AllRunning s
      → Fits w client
      → key_of w client ≢ other
      → Returns (register_pool w client s) (λ t.
        AllRunning t
        × ((p : Pool) × (at t.pools (key_of w client) ≡ some p) × IsRunning p)
        × (at t.pools other ≡ at s.pools other))
  register_pool-AllRunning other all fits n =
      Returns-mono (register_pool w client s) _ _ (register_pool-stores all fits)
        λ t (p, q, _, g, e). rw e (
          AllAt-store IsRunning s.pools (key_of w client) q all g.running,
          (q, at-store_self s.pools (key_of w client) q, g.running),
          at-store_ne s.pools (key_of w client) other q n,
        )

  -- A new client that asks for a size below -1 stops the main goroutine by a panic.
  pub register_pool_panics :
      (n : ℕ)
      → client.handshake.max_size ≡ negsuc (suc n)
      → at s.pools (key_of w client) ≡ none
      → register_pool w client s ≡ panics chan_size
  unfolding register_pool pool_for new_pool inc_int
  register_pool_panics n e missing = rw (missing, pool_for, e, new_pool) refl
