-- ===== src/Server/Dispatch/Threads.antt =====
-- The goroutines of `StartDispatcher` in server/server.go: the dispatchers, each of which runs
-- `dispatchRequest` for the requests that it receives, and the main goroutine, with its `select`
-- and `shutdown`. They meet on the unbuffered channels `getPool` and `repPool`, which all
-- dispatchers share. A step is what one of them does between two points at which it can wait, or a
-- meeting.
pub mod Routing
pub mod Ending
pub mod Termination
use Prim.Native.String.{String}
use wsp.Base.{ℕ, zero, suc, ◌≡◌, List, [], ◌∷◌, ◌++◌, ◌⊎◌, length}

-- Where a dispatcher stands: it waits for a request, sends the key of one on `getPool`, waits on
-- `repPool`, or waits for an idle connection of the pool that it has got; `fetching k j` has asked
-- for the pool of `k` and got that of `j`. `leaving` is about to send nil on `getPool`, and
-- `crashed` has sent on a closed channel.
pub data Dispatcher : Type 0 where
  resting leaving gone crashed : Dispatcher
  asking awaiting : String → Dispatcher
  fetching : String → String → Dispatcher

-- Where the main goroutine stands: in its `select`, about to answer for a key, in the loop of
-- `shutdown` with so many receives left, or behind the closing of the channels.
pub data Main : Type 0 where
  serving stopped : Main
  replying : String → Main
  draining : ℕ → Main

pub record State : Type 0 where
  pub dispatchers : List Dispatcher
  pub main : Main

-- The channel `dispatcher` has been closed.
abbrev pub IsEnding : Main → Type 0
IsEnding (draining n) = Unit
IsEnding stopped = Unit
IsEnding _ = ⊥

-- It is open.
abbrev pub IsOpen : Main → Type 0
IsOpen serving = Unit
IsOpen (replying k) = Unit
IsOpen _ = ⊥

pub data Step : State → State → Type 0 where
  -- A request comes, and the dispatcher asks for the pool of its client.
  accepts :
      {s : State} (xs ys : List Dispatcher) (k : String)
      → s.dispatchers ≡ xs ++ resting ∷ ys
      → IsOpen s.main
      → Step s (record s { dispatchers = xs ++ asking k ∷ ys })
  asks :
      {s : State} (xs ys : List Dispatcher) (k : String)
      → s.dispatchers ≡ xs ++ asking k ∷ ys
      → s.main ≡ serving
      → Step s (record { dispatchers = xs ++ awaiting k ∷ ys; main = replying k })
  -- The main goroutine sends the pool of `j`, or nil if there is none.
  replies :
      {s : State} (xs ys : List Dispatcher) (k j : String)
      → s.dispatchers ≡ xs ++ awaiting k ∷ ys
      → s.main ≡ replying j
      → Step s (record { dispatchers = xs ++ fetching k j ∷ ys; main = serving })
  replies_nil :
      {s : State} (xs ys : List Dispatcher) (k j : String)
      → s.dispatchers ≡ xs ++ awaiting k ∷ ys
      → s.main ≡ replying j
      → Step s (record { dispatchers = xs ++ resting ∷ ys; main = serving })
  -- A connection is found, or the pool has been shut down; or the connection cannot be taken.
  finds :
      {s : State} (xs ys : List Dispatcher) (k j : String)
      → s.dispatchers ≡ xs ++ fetching k j ∷ ys
      → Step s (record s { dispatchers = xs ++ resting ∷ ys })
  retries :
      {s : State} (xs ys : List Dispatcher) (k j : String)
      → s.dispatchers ≡ xs ++ fetching k j ∷ ys
      → Step s (record s { dispatchers = xs ++ asking k ∷ ys })
  -- `newPool` has been closed: `shutdown` closes `dispatcher` and waits once for each dispatcher.
  shuts_down :
      {s : State} → s.main ≡ serving → Step s (record s { main = draining (length s.dispatchers) })
  leaves :
      {s : State} (xs ys : List Dispatcher)
      → s.dispatchers ≡ xs ++ resting ∷ ys
      → IsEnding s.main
      → Step s (record s { dispatchers = xs ++ leaving ∷ ys })
  -- A receive of the loop gets the nil of a dispatcher that ends, or a request for a pool.
  counts :
      {s : State} (xs ys : List Dispatcher) (n : ℕ)
      → s.dispatchers ≡ xs ++ leaving ∷ ys
      → s.main ≡ draining (suc n)
      → Step s (record { dispatchers = xs ++ gone ∷ ys; main = draining n })
  miscounts :
      {s : State} (xs ys : List Dispatcher) (k : String) (n : ℕ)
      → s.dispatchers ≡ xs ++ asking k ∷ ys
      → s.main ≡ draining (suc n)
      → Step s (record { dispatchers = xs ++ awaiting k ∷ ys; main = draining n })
  -- `getPool` and `repPool` are closed: a receive gives nil, and a send panics.
  stops : {s : State} → s.main ≡ draining zero → Step s (record s { main = stopped })
  starves :
      {s : State} (xs ys : List Dispatcher) (k : String)
      → s.dispatchers ≡ xs ++ awaiting k ∷ ys
      → s.main ≡ stopped
      → Step s (record s { dispatchers = xs ++ resting ∷ ys })
  crashes :
      {s : State} (xs ys : List Dispatcher)
      → s.dispatchers ≡ xs ++ leaving ∷ ys
      → s.main ≡ stopped
      → Step s (record s { dispatchers = xs ++ crashed ∷ ys })
  crashes_asking :
      {s : State} (xs ys : List Dispatcher) (k : String)
      → s.dispatchers ≡ xs ++ asking k ∷ ys
      → s.main ≡ stopped
      → Step s (record s { dispatchers = xs ++ crashed ∷ ys })

pub data Reach (s : State) : State → Type 0 where
  here : Reach s s
  next : {t u : State} → Reach s t → Step t u → Reach s u

-- The state in which `StartDispatcher` begins, with so many dispatchers.
abbrev pub all_resting : ℕ → List Dispatcher
all_resting zero = []
all_resting (suc n) = resting ∷ all_resting n

abbrev pub started : ℕ → State
started n = record { dispatchers = all_resting n; main = serving }
