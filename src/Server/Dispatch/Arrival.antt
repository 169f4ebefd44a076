-- ===== src/Server/Dispatch/Arrival.antt =====
-- A client registers a connection, and a request for it follows: `registerPool` and then
-- `dispatchRequest` of server/server.go.
use mathlib.Core.Path.{subst}
use wsp.Base.{
  ℕ, ◌<◌, ◌≡◌, refl, ◌∙◌, inl, inr, Bool, true, List, [], ◌∷◌, ◌++◌, In, length, length-append,
  Bool-cases, arith,
}
use wsp.Base.Maps.{at-store_self}
use wsp.Runtime.{ok, Returns, Returns-mono}
use wsp.Server.Connection.{Connection}
use wsp.Server.Pool.{Pool, is_idle}
use wsp.Server.Pool.Channel.{idle_only}
use wsp.Server.Pool.Lifecycle.Placed.{queued, turned_away, Registered}
use wsp.Server.Dispatch.{
  Server, PoolConfig, World, served, pool_for, register_pool, dispatch_request,
}
use wsp.Server.Dispatch.Register.{AllRunning, Fits, key_of, register_pool-stores}
use wsp.Server.Dispatch.Request.{outcome_from, outcome, IsTaken, dispatch_request_lem}

-- A channel that ends in an idle connection serves a request from what stands in it.
serves_some :
    (h : ℕ → Connection) (l : List ℕ) (c : ℕ) (is_open : Bool)
    → is_idle (h c).status ≡ true
    → (d : ℕ) × (outcome_from (idle_only h (l ++ c ∷ [])) is_open ≡ served d) × In d (l ++ c ∷ [])
serves_some h [] c is_open e = (c, rw e refl, inl refl)
serves_some h (x ∷ l) c is_open e = elim (Bool-cases (is_idle (h x).status)) [
  | inl hit ↦ (x, rw hit refl, inl refl)
  | inr miss ↦ let (d, o, m) = serves_some h l c is_open e in (d, rw miss o, inr m)
]

-- The pool that has registered the connection serves a request from its channel.
Registered-serves :
    (now fuel : ℕ) (p q : Pool)
    → length (idle_only p.heap p.idle_chan.buffer) < p.idle_chan.cap
    → p.idle_chan.cap < fuel
    → Registered now p q
    → (length q.idle_chan.buffer < fuel)
      × ((c : ℕ) × (outcome q ≡ served c)
          × In c (idle_only p.heap p.idle_chan.buffer ++ p.made ∷ []))
Registered-serves now fuel p q room enough g = elim g.placed [
  | turned_away full _ _ ↦ absurd (omega arith)
  | queued _ b v ↦ (
    rw b (omega (arith, length-append (idle_only p.heap p.idle_chan.buffer) (p.made ∷ []))),
    rw b (
        serves_some q.heap (idle_only p.heap p.idle_chan.buffer) p.made q.idle_chan.is_open
          (rw v refl)),
  )
]

-- A client registers a connection with a server whose pools run. If the size that it asks for is one
-- that the runtime can allocate, and the channel of its pool has room for one more than the idle
-- connections there, then the registration returns. A request for the client that follows is served
-- at once, if the dispatcher has more rounds than the channel has places: by a connection that was
-- idle in the channel before, or by the new one; and that connection is busy afterwards.
pub register_pool-serves :
    (w : World) (client : PoolConfig) (s : Server) (p : Pool) (fuel thread : ℕ)
    → AllRunning s
    → Fits w client
    → pool_for w client (key_of w client) s ≡ ok p
    → length (idle_only p.heap p.idle_chan.buffer) < p.idle_chan.cap
    → p.idle_chan.cap < fuel
    → Returns (register_pool w client s) (λ t.
      let r = dispatch_request fuel thread (key_of w client) t in
      (c : ℕ) × (r.0 ≡ served c)
      × In c (idle_only p.heap p.idle_chan.buffer ++ p.made ∷ [])
      × IsTaken (key_of w client) r.0 r.1)
register_pool-serves w client s p fuel thread all fits known room enough =
    Returns-mono (register_pool w client s) _ _ (register_pool-stores w client s all fits)
      λ t (p', q, known', g, e).
        let same : p' ≡ p = cc in
        let (short, (c, o, m)) =
          Registered-serves w.now fuel p q room enough (subst (λ x. Registered w.now x q) same g) in
        let (d, taken) =
          dispatch_request_lem fuel thread (key_of w client) t q
            (rw e (at-store_self s.pools (key_of w client) q)) short in
        (c, d ∙ o, m, taken)
