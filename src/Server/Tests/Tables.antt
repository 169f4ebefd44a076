-- ===== src/Server/Tests/Tables.antt =====
-- Runs of the main goroutine.
use wsp.Base.{◌≡◌, refl, [], ◌∷◌, some, arith}
use wsp.Base.Int.{negsuc, inc_int}
use wsp.Base.Maps.{at}
use text.Mathlib.TextEquality.{eq_iff}
use wsp.Mulch.{hash_key_id}
use wsp.Runtime.{Returns, panics, chan_size}
use wsp.Server.Pool.{Pool}
use wsp.Server.Pool.Lifecycle.{IsRunning}
use wsp.Server.Dispatch.{Server, World, PoolConfig, new_server, register_pool, dispatch_request}
use wsp.Server.Dispatch.Register.{
  AllRunning, key_of, register_pool-AllRunning, register_pool_panics,
}
use wsp.Server.Dispatch.Request.{outcome, IsTaken, dispatch_request_lem}
use wsp.Server.Tests.{greeting, remote, clock, first_pool, joined_pool, joined_pool-IsRunning}

abbrev pub world : World
world = record { sha256_hex = λ s. s; chan_limit = 1000; remote = remote; now = 8; clock = clock }

-- A server with one pool, under the key that the greeting gives.
abbrev pub running_server : Server
running_server = record (new_server 1 60) { pools = ("one", joined_pool) ∷ [] }

pub running_server-AllRunning : AllRunning running_server
running_server-AllRunning = (joined_pool-IsRunning, tt)

abbrev pub newcomer : PoolConfig
newcomer = record { handshake = greeting; secret = "" }

register_pool-AllRunning_example : Returns (register_pool world newcomer running_server) (λ t.
    AllRunning t
    × ((p : Pool) × (at t.pools (key_of world newcomer) ≡ some p) × IsRunning p)
    × (at t.pools "two" ≡ at running_server.pools "two"))
unfolding inc_int hash_key_id
register_pool-AllRunning_example =
    register_pool-AllRunning world newcomer running_server "two" running_server-AllRunning
      (4, refl, omega arith) (ground (arith, eq_iff "one" "two"))

dispatch_request_example :
    let r =
      dispatch_request 9 0 "one" (record (new_server 1 60) { pools = ("one", first_pool) ∷ [] }) in
    (r.0 ≡ outcome first_pool) × IsTaken "one" r.0 r.1
unfolding at
dispatch_request_example =
    dispatch_request_lem 9 0 "one" (record (new_server 1 60) { pools = ("one", first_pool) ∷ [] })
      first_pool refl (omega arith)

-- A client that asks for a pool of size -2.
abbrev hostile : PoolConfig
hostile = record { handshake = record greeting { max_size = negsuc 1 }; secret = "" }

hostile_size : register_pool world hostile (new_server 1 60) ≡ panics chan_size
unfolding at new_server
hostile_size = register_pool_panics world hostile (new_server 1 60) 0 refl refl
