-- ===== src/Server/Dispatch/Loop/Statistics.antt =====
-- The handlers of requests for statistics, `HandleStats` of server/handlers.go, at the main
-- goroutine.
use Prim.Native.String.{String}
use text.Mathlib.Text.{◌==◌ as str_eq}
use mathlib.Core.Path.{subst}
use wsp.Base.Maps.{at}
use wsp.Base.{
  ℕ, ap, ◌≡◌, ◌≢◌, refl, sym, ◌∙◌, List, [], ◌∷◌, Option, none, some, Every, length, Bool-cases,
  inl, inr,
}
use text.Mathlib.TextEquality.{eq_iff}
use wsp.Base.Maps.{different}
use wsp.Server.Pool.{Pool}
use wsp.Server.Pool.Keeper.{PoolSize, size}
use wsp.Server.Pool.Clean.{idle_in}
use wsp.Server.Pool.Size.{busy_in, size_counts}
use wsp.Runtime.{ok, Returns, Returns-mono}
use wsp.Rendezvous.{Caller, got, Calls, Reach, started}
use wsp.Rendezvous.Own.{started-IsServed, HasOwn}
use wsp.Server.Dispatch.{Server, World, new_server}
use wsp.Server.Dispatch.Register.{AllRunning}
use wsp.Server.Dispatch.Stats.{
  Detail, PoolStat, unknown, of_size, of_pool, Stats, stats, all_stats, one_stat, pool_stats,
}
use wsp.Server.Dispatch.Loop.{Event, Reply, on_event}
use wsp.Server.Dispatch.Loop.Clients.{EventFits}
use wsp.Server.Dispatch.Loop.Refines.{on_event-Spec}

-- The state of the main goroutine and the clock, which goes on.
abbrev pub Moment : Type 0
Moment = Server × ℕ

-- The answer on `repStats`.
abbrev pub told : (ℕ → String) → Moment → String → Stats
told remote m id = stats remote m.1 id m.0

-- What the main goroutine does beside its answers on `repStats`.
abbrev pub Goes : Moment → Moment → Type 0
Goes m n = (e : Event) × EventFits e × (reply : Reply) × (on_event e m.0 ≡ ok (n.0, reply))

-- The sizes are those of the pool: its connections, by their status, and the closed ones that have
-- been dropped from it.
pub record Sizes (p : Pool) (z : PoolSize) : Type 0 where
  pub total : z.total ≡ length p.connections
  pub listed : length z.conns ≡ length p.connections
  pub idle_total : z.idle_total ≡ idle_in p.heap p.connections
  pub busy_total : z.busy_total ≡ busy_in p.heap p.connections
  pub closed_total : z.closed_total ≡ p.closed_count

-- The details are those of the pool.
pub record Describes (p : Pool) (d : Detail) : Type 0 where
  pub connected : d.connected ≡ p.connected
  pub idle_pool_wait : d.idle_pool_wait ≡ length p.idle_chan.buffer
  pub idle_pool_size : d.idle_pool_size ≡ p.idle_chan.cap
  pub client : d.client ≡ p.handshake
  pub sizes : Sizes p d.sizes

-- One entry for each pool of the table, under its key.
abbrev pub Lists : List (String × Pool) → List (String × PoolStat) → Type 0
Lists [] [] = Unit
Lists [] (_ ∷ _) = ⊥
Lists (_ ∷ _) [] = ⊥
Lists (e ∷ es) ((key, unknown) ∷ l) = ⊥
Lists (e ∷ es) ((key, of_size z) ∷ l) = ⊥
Lists (e ∷ es) ((key, of_pool d) ∷ l) = (key ≡ e.0) × Describes e.1 d × Lists es l

-- What is right to say to a handler that asks for this client: with no client of every pool, and
-- else of the client's pool, if there is one.
pub data Speaks (s : Server) : String → List (String × PoolStat) → Type 0 where
  of_all : (l : List (String × PoolStat)) → Lists s.pools l → Speaks s "" l
  of_one :
      (id : String) (p : Pool) (z : PoolSize)
      → id ≢ ""
      → at s.pools id ≡ some p
      → Sizes p z
      → Speaks s id ((id, of_size z) ∷ [])
  of_nobody :
      (id : String) → id ≢ "" → at s.pools id ≡ none → Speaks s id (("id not found", unknown) ∷ [])

-- What a handler has been told is right of its own client, and of the requests that each dispatcher
-- has made, in a table of running pools.
abbrev pub IsTold : Caller Moment String Stats → Type 0
IsTold (got m id a) = AllRunning m.0 × (a.threads ≡ m.0.thread_count) × Speaks m.0 id a.pools
IsTold _ = Unit

module _ (remote : ℕ → String) (now : ℕ) where
  size-Sizes : (p : Pool) → Sizes p (size remote now p)
  size-Sizes p =
      let c = size_counts remote now p in
      record {
        total = c.0;
        listed = c.1 ∙ c.0;
        idle_total = c.2;
        busy_total = c.3;
        closed_total = c.5;
      }

  all_stats-Lists : (l : List (String × Pool)) → Lists l (all_stats remote now l)
  unfolding all_stats
  all_stats-Lists [] = tt
  all_stats-Lists (e ∷ l) = (
    refl,
    record {
      connected = refl;
      idle_pool_wait = refl;
      idle_pool_size = refl;
      client = refl;
      sizes = size-Sizes e.1;
    },
    all_stats-Lists l,
  )

  one_stat-Speaks :
      (s : Server) (id : String) (found : Option Pool)
      → id ≢ ""
      → at s.pools id ≡ found
      → Speaks s id (one_stat remote now id found)
  one_stat-Speaks s id none named e = of_nobody id named e
  one_stat-Speaks s id (some p) named e = of_one id p _ named e (size-Sizes p)

  pool_stats-Speaks : (s : Server) (id : String) → Speaks s id (pool_stats remote now id s)
  unfolding pool_stats
  pool_stats-Speaks s id = elim (Bool-cases (str_eq id "")) [
    | inl all ↦ rw (all, (eq_iff id "").0 all) (of_all _ (all_stats-Lists s.pools))
    | inr one ↦ rw one (one_stat-Speaks s id (at s.pools id) (different id "" one) refl)
  ]

Goes-AllRunning : (m n : Moment) → Goes m n → AllRunning m.0 → AllRunning n.0
Goes-AllRunning m n (e, fits, reply, h) all =
    subst (λ r. Returns r (λ r. AllRunning r.0)) h
      (Returns-mono (on_event e m.0) _ _ (on_event-Spec e m.0 all fits) λ r k. k.0)

module _ (w : World) where
  HasOwn-IsTold :
      (cs : List (Caller Moment String Stats))
      → Every (HasOwn (told w.remote) Goes (λ m. AllRunning m.0)) cs
      → Every IsTold cs
  HasOwn-IsTold [] h = tt
  HasOwn-IsTold (got m id a ∷ cs) h = (
    (
      h.0.0,
      ap (λ (z : Stats). z.threads) h.0.1,
      subst (λ (z : Stats). Speaks m.0 id z.pools) (sym h.0.1)
          (pool_stats-Speaks w.remote m.1 m.0 id),
    ),
    HasOwn-IsTold cs h.1,
  )
  HasOwn-IsTold (Caller.resting ∷ cs) h = (tt, HasOwn-IsTold cs h.1)
  HasOwn-IsTold (Caller.asking q ∷ cs) h = (tt, HasOwn-IsTold cs h.1)
  HasOwn-IsTold (Caller.awaiting q ∷ cs) h = (tt, HasOwn-IsTold cs h.1)

-- However many handlers ask for statistics at the same time, and however they interleave with one
-- another and with the other events of the main goroutine, if the registrations ask for sizes that
-- the runtime can allocate: each is told of its own client, of a table of running pools. With no
-- client it is told of every pool under its key; else of the pool of its client alone, with its
-- numbers of idle, busy and dropped connections, or that there is none. And it is told how many
-- requests each dispatcher has made.
pub statistics-IsTold :
    (w : World) (dispatchers idle_timeout now n : ℕ) (t : Calls Moment String Stats)
    → Reach (told w.remote) Goes (started n (new_server dispatchers idle_timeout, now)) t
    → Every IsTold t.callers
unfolding new_server
statistics-IsTold w dispatchers idle_timeout now n t r =
    HasOwn-IsTold w t.callers
      (started-IsServed (told w.remote) Goes (λ m. AllRunning m.0) Goes-AllRunning n _ t tt r).own
