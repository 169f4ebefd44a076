-- ===== src/Server/Tests/Statistics.antt =====
-- A handler that asks for statistics while a dispatcher asks for a pool.
use Prim.Native.String.{String}
use wsp.Base.{◌≡◌, refl, [], ◌∷◌, none, some, Every, inr}
use wsp.Base.Int.{pos}
use wsp.Base.Maps.{at}
use wsp.Rendezvous.{got, selecting, Calls, Step, Reach, here, next, started}
use wsp.Server.Dispatch.{new_server, get_pool}
use wsp.Server.Dispatch.Stats.{Stats}
use wsp.Server.Dispatch.Loop.{get_pool_asked, rep_pool, on_event}
use wsp.Server.Dispatch.Loop.Statistics.{Moment, told, Goes, IsTold, statistics-IsTold}
use wsp.Server.Proxy.{new_writer}
use wsp.Server.Handlers.{HandlerConfig, handle_stats}
use wsp.Server.Tests.Tables.{world}

abbrev before : Moment
before = (new_server 1 60, 7)

abbrev after : Moment
after = ((get_pool 0 "one" (new_server 1 60)).1, 8)

abbrev asked : Calls Moment String Stats
asked = record {
  callers = got after "one" (told world.remote after "one") ∷ [];
  owner = selecting;
  state = after;
}

Reach-asked : Reach (told world.remote) Goes (started 1 before) asked
unfolding on_event get_pool at new_server
Reach-asked =
    next
      (next
        (next (next here (Step.comes [] [] "one" refl))
          (Step.changes after refl (get_pool_asked 0 "one", tt, rep_pool none, refl)))
        (Step.meets [] [] "one" refl refl))
      (Step.replies [] [] "one" _ refl refl)

statistics-IsTold_example : Every IsTold asked.callers
statistics-IsTold_example = statistics-IsTold world 1 60 7 1 asked Reach-asked

abbrev config : HandlerConfig
config = record { secret_key = "s"; id_header = "x-id"; key_validator = none }

-- Statistics that cannot be encoded are answered with status 500.
unencoded :
    (handle_stats config
      (λ name. "one")
      (told world.remote after)
      (λ z. inr "no JSON")
      new_writer).status
    ≡ some (pos 500)
unfolding handle_stats
unencoded = refl
