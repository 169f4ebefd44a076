-- ===== src/Client/Pool/Fill.antt =====
-- `connector` and `fillConnectionPool` of client/pool.go: how many connections are opened, and how
-- long the client waits.
use Prim.Native.Nat.{max}
use wsp.Base.{
  ℕ, zero, suc, ◌+◌, ◌-◌, ◌≤◌, ◌≡◌, refl, ◌≢◌, ◌⊎◌, Bool, true, false, List, [], ◌∷◌, ◌++◌, Every,
  arith, length, length-append, ◌==◌, if◌then◌else◌,
}
use wsp.Base.Int.{ℤ, pos_part, ◌+ℤ◌, ◌-ℤ◌}
use wsp.Runtime.{Returns, Returns-bind, Returns-mono}
use wsp.Client.Config.{Config}
use wsp.Client.Pool.{
  Status, idle, Connection, Pool, PoolSize, Attempt, succeeds, dial_fails, greeting_fails,
  connected, tally, size_loop, to_create, fill_loop, rounds, fill_connection_pool,
}

-- The goroutine `keepAlive` of every connection still runs.
abbrev pub AllKept : List Connection → Type 0
AllKept = Every (λ c. c.keeper ≡ true)

abbrev pub is_idle : Status → Bool
is_idle idle = true
is_idle _ = false

abbrev pub idle_in : List Connection → ℕ
idle_in [] = 0
idle_in (c ∷ cs) = (if is_idle c.status then 1 else 0) + idle_in cs

pub size_loop_counts :
    (cs : List Connection) (s : PoolSize)
    → AllKept cs
    → Returns
        (size_loop cs s)
        (λ t. (t.total ≡ s.total) × (t.idle_total ≡ s.idle_total + idle_in cs))
unfolding size_loop
size_loop_counts [] s k = (refl, omega arith)
size_loop_counts (c ∷ cs) s (k, ks) = rw k (
    Returns-mono (size_loop cs (tally c.status s)) _ _ (size_loop_counts cs (tally c.status s) ks)
      λ t h. ground (arith, h.0, h.1))

-- No more connections are asked for than fit.
pub to_create_fits :
    (config : Config) (s : PoolSize)
    → rounds (to_create config s) + s.total ≤ max s.total (pos_part config.pool_max_size)
unfolding to_create ◌-ℤ◌ ◌+ℤ◌
to_create_fits config s = ground arith

-- As many are asked for as the idle ones fall short of, if they fit.
to_create_enough :
    (config : Config) (s : PoolSize)
    → (pos_part config.pool_idle_size ≤ s.idle_total + rounds (to_create config s))
      ⊎ (pos_part config.pool_max_size ≤ s.total + rounds (to_create config s))
unfolding to_create ◌-ℤ◌ ◌+ℤ◌
to_create_enough config s = ground arith

-- What the loop may leave: so many more connections, and a wait that has grown once at most.
pub record Filled (config : Config) (k : ℕ) (p q : Pool) : Type 0 where
  pub more : length p.connections ≤ length q.connections
  pub bound : length q.connections ≤ length p.connections + k
  pub wait : q.back_off ≤ max p.back_off config.backoff + config.backoff
  pub flag : q.is_shut_down ≡ p.is_shut_down

fill_step-Filled :
    (attempts : ℕ → Attempt) (config : Config) (k n : ℕ) (p : Pool) (a : Attempt)
    → attempts n ≡ a
    → a ≢ greeting_fails
    → (let q : Pool = record p {
      connections = p.connections ++ connected n ∷ [];
      back_off = config.backoff;
    } in
        Returns (fill_loop attempts config k (suc n) q) (Filled config k q))
    → Returns (fill_loop attempts config (suc k) n p) (Filled config (suc k) p)
unfolding fill_loop
fill_step-Filled attempts config k n p succeeds e g ih =
    rw (e, fill_loop)
      (Returns-mono (fill_loop attempts config k (suc n) q) (Filled config k q)
        (Filled config (suc k) p) ih
        λ r f. record {
          more = omega (arith, f.more, length-append p.connections (connected n ∷ []));
          bound = omega (arith, f.bound, length-append p.connections (connected n ∷ []));
          wait = omega (arith, f.wait);
          flag = f.flag;
        })
  where
    q : Pool
    q = record p { connections = p.connections ++ connected n ∷ []; back_off = config.backoff }
fill_step-Filled attempts config k n p dial_fails e g ih =
    rw (e, fill_loop)
      (record { more = omega arith; bound = omega arith; wait = omega arith; flag = refl })
fill_step-Filled attempts config k n p greeting_fails e g ih = absurd (g refl)

pub fill_loop-Filled :
    (attempts : ℕ → Attempt) (config : Config) (k n : ℕ) (p : Pool)
    → ((i : ℕ) → attempts i ≢ greeting_fails)
    → Returns (fill_loop attempts config k n p) (Filled config k p)
unfolding fill_loop
fill_loop-Filled attempts config zero n p greets = record {
  more = omega arith;
  bound = omega arith;
  wait = omega arith;
  flag = refl;
}
fill_loop-Filled attempts config (suc k) n p greets =
    fill_step-Filled attempts config k n p (attempts n) refl (greets n)
      (fill_loop-Filled attempts config k (suc n) _ greets)

-- The longest wait before the next attempt.
abbrev pub longest_wait : Config → ℕ
longest_wait config =
    max (max config.max_backoff config.backoff_reset) config.backoff + config.backoff

pub fill_connection_pool-Filled :
    (attempts : ℕ → Attempt) (config : Config) (now : ℕ) (wanted : ℤ) (last_conn next : ℕ)
    (p : Pool)
    → ((i : ℕ) → attempts i ≢ greeting_fails)
    → Returns
        (fill_connection_pool attempts config now wanted last_conn next p)
        (λ r. Filled config (rounds wanted) p r.pool)
unfolding fill_connection_pool
fill_connection_pool-Filled attempts config now wanted last_conn next p greets =
    Returns-bind (fill_loop attempts config (rounds wanted) next p) _
      (Filled config (rounds wanted) p) _
      (fill_loop-Filled attempts config (rounds wanted) next p greets) λ q h. h

-- How many connections a call of `connector` may open, and how long it may make the client wait.
pub record Opened (config : Config) (p q : Pool) : Type 0 where
  pub more : length p.connections ≤ length q.connections
  pub within : length q.connections ≤ max (length p.connections) (pos_part config.pool_max_size)
  pub needed :
      length q.connections
      ≤ length p.connections
        + max
            (pos_part config.pool_idle_size - idle_in p.connections)
            (if length p.connections == 0 then 1 else 0)
  pub wait : q.back_off ≤ longest_wait config
