-- ===== src/Server/Tests/Runs.antt =====
-- Sequences of events at the main goroutine.
use wsp.Base.{none, ◌≡◌, refl, List, [], ◌∷◌, arith}
use wsp.Base.Int.{inc_int}
use wsp.Runtime.{Returns, ok, ◌>>=◌, panics, close_of_closed}
use wsp.Server.Dispatch.{Server, new_server, close_new_pool}
use wsp.Server.Dispatch.Register.{AllRunning}
use wsp.Server.Dispatch.Loop.{
  Event, Reply, new_pool, get_pool_asked, cleaner_ticked, get_stats_asked, used, receives, gives,
  closes, run, start_dispatcher,
}
use wsp.Server.Dispatch.Loop.Clients.{clients}
use wsp.Server.Dispatch.Loop.Refines.{AllFit, SpecRun, run-Refines}
use wsp.Server.Dispatch.Loop.Ends.{Ending, start_dispatcher-IsDown}
use wsp.Server.Tests.Tables.{world, newcomer, running_server, running_server-AllRunning}

-- A client comes, its connection is used and given back, it is cleaned, and the statistics are
-- read.
abbrev pub day : List Event
day =
    new_pool world newcomer
    ∷ get_pool_asked 0 "one"
    ∷ used "one" receives
    ∷ used "one" (gives 9 0)
    ∷ used "two" (closes 3)
    ∷ cleaner_ticked world
    ∷ get_stats_asked world ""
    ∷ get_stats_asked world "one"
    ∷ used "one" (closes 0)
    ∷ cleaner_ticked world
    ∷ []

pub day-AllFit : AllFit day
unfolding inc_int
day-AllFit = ((4, refl, omega arith), (tt, (tt, (tt, (tt, (tt, (tt, (tt, (tt, (tt, tt))))))))))

run-Refines_example :
    Returns
      (run day running_server)
      (λ r. AllRunning r.0 × SpecRun day (clients running_server) (clients r.0) r.1)
run-Refines_example = run-Refines day running_server running_server-AllRunning day-AllFit

start_dispatcher-IsDown_example :
    (u : Server × List Reply) × (run day (new_server 2 60) ≡ ok u)
    × (u.0.dispatchers ≡ 2)
    × Ending u.0
        (none ∷ none ∷ [])
        (start_dispatcher world day (none ∷ none ∷ []) (new_server 2 60))
start_dispatcher-IsDown_example =
    start_dispatcher-IsDown world 2 60 day (none ∷ none ∷ []) day-AllFit

-- `Shutdown` is for one call: a second one closes a closed channel.
shutdown_twice : (close_new_pool (new_server 2 60) >>= close_new_pool) ≡ panics close_of_closed
unfolding close_new_pool new_server
shutdown_twice = refl
