-- ===== src/Server/Tests/Serving.antt =====
-- Runs of several parts of the server together.
use Prim.Native.String.{String}
use text.Mathlib.TextEquality.{eq_iff}
use mathlib.Core.List.{Permᴰ}
use wsp.Base.{ℕ, ◌≡◌, refl, ◌%◌, ◌^◌, ◌+◌, true, Option, List, [], ◌∷◌, In, inl, inr, arith}
use wsp.Base.Int.{inc_int}
use wsp.Base.Keys.{IsMap}
use wsp.Base.Maps.{at}
use wsp.Mulch.{hash_key_id}
use wsp.Runtime.{ok, Returns}
use wsp.Server.Pool.{Pool}
use wsp.Server.Pool.Keeper.{register}
use wsp.Server.Pool.Lifecycle.Placed.{Registered, register-Registered}
use wsp.Server.Metrics.{Gauges}
use wsp.Server.Dispatch.{
  Server, new_server, served, pool_for, register_pool, dispatch_request, clean_pools,
}
use wsp.Server.Dispatch.Request.{IsTaken}
use wsp.Server.Dispatch.Arrival.{register_pool-serves}
use wsp.Server.Dispatch.Clean.Order.{Alike, clean_pools-reordered}
use wsp.Server.Dispatch.Loop.{run}
use wsp.Server.Dispatch.Loop.Counters.{times_asked, run-Counted}
use wsp.Server.Dispatch.Loop.Tables.{run-IsMap}
use wsp.Server.Serving.{Setting, serve_request}
use wsp.Server.Serving.Ending.{Ending, serve_request-Ending}
use wsp.Server.Tests.{
  remote, clock, first_pool, first_pool-IsRunning, joined_pool, joined_pool-IsRunning,
}
use wsp.Server.Tests.Requests.{exchange, config, front}
use wsp.Server.Tests.Runs.{day, day-AllFit}
use wsp.Server.Tests.Tables.{world, newcomer, running_server, running_server-AllRunning}

abbrev to_one : Setting
to_one = record {
  describe = λ e. "error";
  config = config;
  get = λ name. "one";
  parses = λ to. true;
  exchange = λ c. exchange;
  fuel = 9;
  thread = 0;
  now = 9;
}

abbrev fresh_server : Server
fresh_server = record (new_server 1 60) { pools = ("one", first_pool) ∷ [] }

serve_request-Ending_example :
    Ending to_one front fresh_server (serve_request to_one front fresh_server)
serve_request-Ending_example =
    serve_request-Ending to_one front fresh_server refl (first_pool-IsRunning, tt)
      (omega arith, (omega arith, tt))

-- The first connection of a new client.
register_pool-serves_example : Returns (register_pool world newcomer fresh_server) (λ t.
    let r = dispatch_request 9 0 "one" t in
    (c : ℕ) × (r.0 ≡ served c) × In c (0 ∷ []) × IsTaken "one" r.0 r.1)
unfolding hash_key_id inc_int pool_for at
register_pool-serves_example =
    register_pool-serves world newcomer fresh_server first_pool 9 0 (first_pool-IsRunning, tt)
      (4, refl, omega arith) refl (omega arith) (omega arith)

register-Registered_example :
    Returns (register remote 9 clock joined_pool) (Registered 9 joined_pool)
register-Registered_example = register-Registered remote 9 clock joined_pool joined_pool-IsRunning

abbrev one_two : List (String × Pool)
one_two = ("one", joined_pool) ∷ ("two", first_pool) ∷ []

abbrev two_one : List (String × Pool)
two_one = ("two", first_pool) ∷ ("one", joined_pool) ∷ []

clean_pools-reordered_example :
    (a b : Server × Option Gauges) × (clean_pools world
        (record (new_server 1 60) { pools = one_two })
      ≡ ok a)
    × (clean_pools world (record (new_server 1 60) { pools = two_one }) ≡ ok b)
    × Alike a b
clean_pools-reordered_example =
    clean_pools-reordered world (record (new_server 1 60) { pools = one_two }) two_one
      (joined_pool-IsRunning, (first_pool-IsRunning, tt))
      (
        λ h. elim h [ inl e ↦ ground (arith, eq_iff "one" "two") | inr no_more ↦ no_more ],
        ((λ h. h), tt),
      )
      (Permᴰ.swap refl refl)

run-Counted_example :
    Returns (run day running_server) (λ r. r.0.thread_count 0 ≡ (0 + times_asked 0 day) % 2 ^ 64)
unfolding new_server
run-Counted_example =
    run-Counted day running_server 0 running_server-AllRunning day-AllFit (omega arith)

one_asked : times_asked 0 day ≡ 1
one_asked = refl

running_server-IsMap : IsMap running_server.pools
running_server-IsMap = ((λ h. h), tt)

running_keys : Returns (run day running_server) (λ r. IsMap r.0.pools)
running_keys =
    run-IsMap day running_server running_server-AllRunning day-AllFit running_server-IsMap
