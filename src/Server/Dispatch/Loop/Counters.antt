-- ===== src/Server/Dispatch/Loop/Counters.antt =====
-- The counters of the dispatchers that the main goroutine keeps: `threadCount` of server/server.go.
use Prim.Native.String.{String}
use wsp.Base.{
  ℕ, ◌+◌, ◌%◌, ◌^◌, ◌<◌, ◌≡◌, refl, List, [], ◌∷◌, Option, none, some, ◌==◌, arith, if◌then◌else◌,
}
use wsp.Base.Maps.{at}
use wsp.Runtime.{Returns, Returns-mono, Returns-and, WhenOk, WhenOk-bind, WhenOk-any}
use wsp.Server.Pool.{Pool}
use wsp.Server.Pool.Keeper.{register}
use wsp.Server.Dispatch.{
  Server, PoolConfig, World, pool_for, register_pool, clean_pools, clean_pools_loop, get_pool,
  no_sizes,
}
use wsp.Server.Dispatch.Register.{AllRunning, key_of}
use wsp.Server.Dispatch.Loop.{
  Event, new_pool, get_pool_asked, cleaner_ticked, get_stats_asked, used, Use, use_pool, use_entry,
  on_event, run,
}
use wsp.Server.Dispatch.Loop.Refines.{AllFit, run-Refines}

-- How often a dispatcher has asked for a pool.
abbrev pub asks : ℕ → Event → ℕ
asks t (get_pool_asked thread key) = if t == thread then 1 else 0
asks t _ = 0

abbrev pub times_asked : ℕ → List Event → ℕ
times_asked t [] = 0
times_asked t (e ∷ es) = asks t e + times_asked t es

-- The counters are left alone.
abbrev SameCounts : Server → Server → Type 0
SameCounts s t = t.thread_count ≡ s.thread_count

register_pool-counts :
    (w : World) (client : PoolConfig) (s : Server)
    → WhenOk (register_pool w client s) (SameCounts s)
unfolding register_pool
register_pool-counts w client s =
    WhenOk-bind (pool_for w client (key_of w client) s) _ (λ _. Unit {0}) (SameCounts s)
      (WhenOk-any _)
      λ p _.
        WhenOk-bind (register w.remote w.now w.clock p) _ (λ _. Unit {0}) (SameCounts s)
          (WhenOk-any _) λ q _. refl

clean_pools-counts : (w : World) (s : Server) → WhenOk (clean_pools w s) (λ r. SameCounts s r.0)
unfolding clean_pools
clean_pools-counts w s = go s.pools refl
  where
    go : (l : List (String × Pool)) → s.pools ≡ l → WhenOk (clean_pools w s) (λ r. SameCounts s r.0)
    go [] e = rw (e, clean_pools) refl
    go (entry ∷ rest) e =
        rw (e, clean_pools)
          (WhenOk-bind
            (clean_pools_loop w (entry ∷ rest)
              (record { kept = []; closed = s.closed; totals = no_sizes; conns_per_pool = [] }))
            _ (λ _. Unit {0}) (λ r. SameCounts s r.0) (WhenOk-any _) λ t _. refl)

use_entry-counts :
    (key : String) (u : Use) (s : Server) (found : Option Pool)
    → WhenOk (use_entry key u s found) (SameCounts s)
use_entry-counts key u s none = refl
use_entry-counts key u s (some p) =
    WhenOk-bind (use_pool u p) _ (λ _. Unit {0}) (SameCounts s) (WhenOk-any _) λ q _. refl

on_event-counts :
    (e : Event) (s : Server) (t : ℕ)
    → s.thread_count t < 2 ^ 64
    → WhenOk (on_event e s) (λ r. r.0.thread_count t ≡ (s.thread_count t + asks t e) % 2 ^ 64)
unfolding on_event get_pool
on_event-counts (new_pool w client) s t h =
    WhenOk-bind (register_pool w client s) _ (SameCounts s) _ (register_pool-counts w client s)
      λ u e. rw e (ground arith)
on_event-counts (get_pool_asked thread key) s t h = ground arith
on_event-counts (cleaner_ticked w) s t h =
    WhenOk-bind (clean_pools w s) _ (λ r. SameCounts s r.0) _ (clean_pools-counts w s)
      λ u e. rw e (ground arith)
on_event-counts (get_stats_asked w id) s t h = ground arith
on_event-counts (used key u) s t h =
    WhenOk-bind (use_entry key u s (at s.pools key)) _ (SameCounts s) _
      (use_entry-counts key u s (at s.pools key)) λ u e. rw e (ground arith)

run-counts :
    (es : List Event) (s : Server) (t : ℕ)
    → s.thread_count t < 2 ^ 64
    → WhenOk (run es s) (λ r. r.0.thread_count t ≡ (s.thread_count t + times_asked t es) % 2 ^ 64)
unfolding run
run-counts [] s t h = ground arith
run-counts (e ∷ es) s t h =
    WhenOk-bind (on_event e s) _ _ _ (on_event-counts e s t h) λ (u, reply) first.
      WhenOk-bind (run es u) _ _ _ (run-counts es u t (rw first (ground arith)))
        λ (v, replies) rest. omega (arith, rest, first)

-- After any sequence of events, from running pools and with sizes that the runtime can allocate, the
-- main goroutine has counted for each dispatcher how often that dispatcher has asked for a pool, in
-- a counter that wraps around at 64 bits; no other event changes the counters.
pub run-Counted :
    (es : List Event) (s : Server) (t : ℕ)
    → AllRunning s
    → AllFit es
    → s.thread_count t < 2 ^ 64
    → Returns (run es s) (λ r. r.0.thread_count t ≡ (s.thread_count t + times_asked t es) % 2 ^ 64)
run-Counted es s t all fits h =
    Returns-mono (run es s) _ _
      (Returns-and (run es s) _ _ (run-Refines es s all fits) (run-counts es s t h)) λ r k. k.1
