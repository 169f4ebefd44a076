-- ===== src/Server/Dispatch/Loop/Tables.antt =====
-- The table of the main goroutine is a map, whatever it does.
use Prim.Native.String.{String}
use wsp.Base.{List, [], ◌∷◌, Option, none, some}
use wsp.Base.Maps.{at}
use wsp.Base.Keys.{IsMap, store-IsMap}
use wsp.Runtime.{
  Returns, Returns-bind, Returns-mono, Returns-and, Returns-both, WhenOk, WhenOk-bind, WhenOk-any,
}
use wsp.Server.Pool.{Pool}
use wsp.Server.Dispatch.{Server, register_pool, clean_pools, get_pool}
use wsp.Server.Dispatch.Register.{AllRunning, key_of, register_pool-stores}
use wsp.Server.Dispatch.Clean.Order.{clean_pools-IsMap}
use wsp.Server.Dispatch.Loop.{
  Use, use_pool, use_entry, Event, new_pool, get_pool_asked, cleaner_ticked, get_stats_asked, used,
  on_event, run,
}
use wsp.Server.Dispatch.Loop.Clients.{EventFits}
use wsp.Server.Dispatch.Loop.Refines.{on_event-Spec, AllFit}

use_entry-IsMap :
    (key : String) (u : Use) (s : Server) (found : Option Pool)
    → IsMap s.pools
    → WhenOk (use_entry key u s found) (λ t. IsMap t.pools)
use_entry-IsMap key u s none m = m
use_entry-IsMap key u s (some p) m =
    WhenOk-bind (use_pool u p) _ (λ _. Unit {0}) (λ t. IsMap t.pools) (WhenOk-any (use_pool u p))
      λ q _. store-IsMap s.pools key q m

on_event-IsMap :
    (e : Event) (s : Server)
    → AllRunning s
    → EventFits e
    → IsMap s.pools
    → Returns (on_event e s) (λ r. IsMap r.0.pools)
unfolding on_event get_pool
on_event-IsMap (new_pool w client) s all fits m =
    Returns-bind (register_pool w client s) _ _ _ (register_pool-stores w client s all fits)
      λ t (p, q, _, _, e). rw e (store-IsMap s.pools (key_of w client) q m)
on_event-IsMap (get_pool_asked thread key) s all fits m = m
on_event-IsMap (cleaner_ticked w) s all fits m =
    Returns-bind (clean_pools w s) _ _ _ (clean_pools-IsMap w s all m) λ r h. h
on_event-IsMap (get_stats_asked w id) s all fits m = m
on_event-IsMap (used key u) s all fits m =
    Returns-mono (on_event (used key u) s) _ _
      (Returns-and (on_event (used key u) s) _ _ (on_event-Spec (used key u) s all fits) (
        WhenOk-bind (use_entry key u s (at s.pools key)) _ (λ t. IsMap t.pools)
          (λ r. IsMap r.0.pools) (use_entry-IsMap key u s (at s.pools key) m) λ t h. h))
      λ r h. h.1

-- After any sequence of events, from running pools and with sizes that the runtime can allocate, no
-- key stands twice in the table of the main goroutine, if none did at the start.
pub run-IsMap :
    (es : List Event) (s : Server)
    → AllRunning s
    → AllFit es
    → IsMap s.pools
    → Returns (run es s) (λ r. IsMap r.0.pools)
unfolding run
run-IsMap [] s all fits m = m
run-IsMap (e ∷ es) s all (fit, fits) m =
    Returns-bind (on_event e s) _ _ _
      (Returns-both (on_event e s) _ _ (on_event-Spec e s all fit) (on_event-IsMap e s all fit m))
      λ (t, reply) ((all', _), m').
        Returns-bind (run es t) _ _ _ (run-IsMap es t all' fits m') λ (u, replies) h. h
