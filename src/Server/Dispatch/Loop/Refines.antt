-- ===== src/Server/Dispatch/Loop/Refines.antt =====
-- The main goroutine of server/server.go against the set of its clients.
use Prim.Native.String.{String}
use wsp.Base.{◌≡◌, refl, List, [], ◌∷◌, Option-cases, inl, inr}
use wsp.Base.Maps.{at, AllAt-store, AllAt-at}
use wsp.Runtime.{Returns, Returns-bind, Returns-and}
use wsp.Server.Pool.Lifecycle.{IsRunning}
use wsp.Server.Dispatch.{Server, register_pool, clean_pools, get_pool}
use wsp.Server.Dispatch.Register.{key_of, AllRunning, register_pool-stores}
use wsp.Server.Dispatch.Clean.{IsKept, clean_pools-Agree}
use wsp.Server.Dispatch.Stats.{stats}
use wsp.Server.Dispatch.Loop.{
  Use, use_pool, Event, new_pool, get_pool_asked, cleaner_ticked, get_stats_asked, used, Reply,
  use_entry, on_event, run,
}
use wsp.Server.Dispatch.Loop.Uses.{use_pool-IsRunning}
use wsp.Server.Dispatch.Loop.Clients.{
  Clients, clients, Spec, EventFits, AllAt-mono, clean_pools-From, is_some-store,
  is_some-store_found, is_known-stats,
}

use_entry-Spec :
    (key : String) (u : Use) (s : Server)
    → AllRunning s
    → Returns
        (use_entry key u s (at s.pools key))
        (λ t. AllRunning t × ((k : String) → clients t k ≡ clients s k))
use_entry-Spec key u s all = elim (Option-cases (at s.pools key)) [
  | inl missing ↦ rw (missing, use_entry) (all, λ k. refl)
  | inr (p, found) ↦
      rw (found, use_entry)
        (Returns-bind (use_pool u p) _ _ _
          (use_pool-IsRunning u p (AllAt-at IsRunning s.pools key p all found))
          λ q r. (
            AllAt-store IsRunning s.pools key q all r,
            λ k. is_some-store_found s.pools key k p q found,
          ))
]

-- What an event does to the set of clients.
pub on_event-Spec :
    (e : Event) (s : Server)
    → AllRunning s
    → EventFits e
    → Returns (on_event e s) (λ r. AllRunning r.0 × Spec e (clients s) (clients r.0) r.1)
unfolding on_event get_pool
on_event-Spec (new_pool w client) s all fits =
    Returns-bind (register_pool w client s) _ _ _ (register_pool-stores w client s all fits)
      λ t (p, q, _, g, e). rw e (
        AllAt-store IsRunning s.pools (key_of w client) q all g.running,
        λ key. is_some-store s.pools (key_of w client) key q,
      )
on_event-Spec (get_pool_asked thread key) s all fits =
    (all, (λ k. refl, at s.pools key, refl, refl))
on_event-Spec (cleaner_ticked w) s all fits =
    Returns-bind (clean_pools w s) _ _ _
      (Returns-and (clean_pools w s) _ _ (clean_pools-Agree w s all)
        (clean_pools-From w s.pools s refl))
      λ r (h, from). (AllAt-mono IsKept IsRunning r.0.pools (λ p k. k.0) h.0, from)
on_event-Spec (get_stats_asked w id) s all fits =
    (all, (λ k. refl, stats w.remote w.now id s, refl, is_known-stats w id s))
on_event-Spec (used key u) s all fits =
    Returns-bind (use_entry key u s (at s.pools key)) _ _ _ (use_entry-Spec key u s all) λ t h. h

-- A run of the main goroutine as a run over the set of clients, with one reply for each event.
abbrev pub SpecRun : List Event → Clients → Clients → List Reply → Type 0
SpecRun [] a b replies = ((k : String) → b k ≡ a k) × (replies ≡ [])
SpecRun (e ∷ es) a b replies =
    (c : Clients) × (reply : Reply) × (rest : List Reply) × (replies ≡ reply ∷ rest)
    × Spec e a c reply
    × SpecRun es c b rest

abbrev pub AllFit : List Event → Type 0
AllFit [] = Unit
AllFit (e ∷ es) = EventFits e × AllFit es

-- From running pools, and when the registrations ask for sizes that the runtime can allocate, the
-- loop of the main goroutine returns after any sequence of events, and what it has done is a run
-- over the set of clients: a registration adds the client of its key, cleaning only removes
-- clients, the use of a connection and a question change none, a dispatcher is told a pool exactly
-- when its client has one, and the statistics name the clients that have one.
pub run-Refines :
    (es : List Event) (s : Server)
    → AllRunning s
    → AllFit es
    → Returns (run es s) (λ r. AllRunning r.0 × SpecRun es (clients s) (clients r.0) r.1)
unfolding run
run-Refines [] s all fits = (all, (λ k. refl, refl))
run-Refines (e ∷ es) s all (fit, fits) =
    Returns-bind (on_event e s) _ _ _ (on_event-Spec e s all fit) λ (t, reply) (all', spec).
      Returns-bind (run es t) _ _ _ (run-Refines es t all' fits)
        λ (u, replies) (all'', specs). (all'', (clients t, reply, replies, refl, spec, specs))
