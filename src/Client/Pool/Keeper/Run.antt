-- ===== src/Client/Pool/Keeper/Run.antt =====
-- A run of the goroutine of the client's pool: `Start` of client/pool.go.
use wsp.Base.{ℕ, ◌≤◌, ◌≡◌, refl, ◌≢◌, true, false, List, Every, arith, length}
use wsp.Base.Int.{pos_part}
use wsp.Runtime.{Returns}
use wsp.Client.Config.{Config}
use wsp.Client.Pool.{Attempt, greeting_fails}
use wsp.Client.Pool.Remove.{AllLive}
use wsp.Client.Pool.Keeper.{Keeper, Event, ping_fails, start}
use wsp.Client.Pool.Keeper.Kept.{IsKept, connects-IsKept, AllClosed}

-- What holds of the goroutine: while it runs its connections are live, and afterwards all are
-- closed; there are never more of them than configured.
pub record Kept (config : Config) (k : Keeper) : Type 0 where
  pub runs : k.is_running ≡ true → AllLive k.pool.connections
  pub ended : k.is_running ≡ false → AllClosed k.pool.connections
  pub within : length k.pool.connections ≤ pos_part config.pool_max_size

-- No ping of `keepAlive` fails.
abbrev pub NoPingFails : List Event → Type 0
NoPingFails = Every (λ e. (ref : ℕ) → e ≢ ping_fails ref)

-- What `Start` leaves, before any message.
pub start-IsKept :
    (attempts : ℕ → Attempt) (config : Config) (now last_conn : ℕ)
    → ((i : ℕ) → attempts i ≢ greeting_fails)
    → Returns
        (start attempts config now last_conn)
        (λ k. IsKept config false k.pool × (k.is_running ≡ true))
unfolding start
start-IsKept attempts config now last_conn greets =
    connects-IsKept attempts config now false _ greets
      (record { flag = refl; live = tt; within = omega arith })
