-- ===== src/Server/Tests.antt =====
-- Runs of the server library at concrete inputs: the pools and the greeting that they share.
mod Pools
mod Requests
mod Runs
mod Serving
mod Sessions
mod Statistics
mod Tables
mod Threads
use Prim.Native.String.{String}
use wsp.Base.{ℕ, ◌≡◌, refl, ◌<◌, List, [], ◌∷◌, true, none, arith}
use wsp.Base.Int.{pos, inc_int}
use wsp.Mulch.{Handshake}
use wsp.Runtime.{ok, value_or, Returns-value_or}
use wsp.Server.Pool.{Pool, absent, new_pool}
use wsp.Server.Pool.Keeper.{register}
use wsp.Server.Pool.Lifecycle.{IsRunning, new_pool_lem}
use wsp.Server.Pool.Lifecycle.Register.{register-IsRunning}

abbrev pub greeting : Handshake
greeting = record {
  size = pos 1;
  max_size = pos 3;
  id = "one";
  name = "first";
  compress = "";
  client_ids = [];
}

abbrev pub remote : ℕ → String
remote c = "10.0.0.1:80"

abbrev pub clock : ℕ → ℕ
clock c = 7

-- A pool that has just been made.
abbrev pub first_pool : Pool
first_pool = record {
  connected = 5;
  handshake = greeting;
  min_size = pos 2;
  idle_timeout = 60;
  id = "one";
  connections = [];
  closed_count = 0;
  idle_chan = record { buffer = []; cap = 4; is_open = true };
  new_conn = true;
  ask_clean = true;
  ask_size = true;
  get_size = true;
  heap = λ _. absent;
  made = 0;
}

new_pool_first : new_pool 1000 5 60 greeting "" ≡ ok first_pool
unfolding new_pool inc_int
new_pool_first = refl

pub first_pool-IsRunning : IsRunning first_pool
unfolding new_pool inc_int
first_pool-IsRunning = new_pool_lem 1000 5 60 greeting "" 4 refl (omega arith)

-- A connection has been registered.
pub joined_pool : Pool
joined_pool = value_or first_pool (register remote 6 clock first_pool)

pub joined_pool-IsRunning : IsRunning joined_pool
unfolding joined_pool
joined_pool-IsRunning =
    Returns-value_or first_pool (register remote 6 clock first_pool) IsRunning
      (register-IsRunning remote 6 clock first_pool first_pool-IsRunning)
