-- ===== src/Client/Session.antt =====
-- One connection of client/connection.go and three goroutines: `serve`, `keepAlive`, which owns the
-- status, and the goroutine of the pool, which asks for it and closes the connection. They meet on
-- the unbuffered channels `setStatus` and `getStatus`. A step is what one of them does between two
-- points at which it can wait, or a meeting.
pub mod Hang
pub mod Statuses
use wsp.Base.{◌≡◌, Bool, true, false}
use wsp.Client.Pool.{Status, connecting, idle, running}

-- Where `serve` stands: about to set the first IDLE, in `ReadMessage`, about to set RUNNING, with a
-- request, about to set IDLE again, or behind its loop.
pub data Phase : Type 0 where
  starting reading found handling again ending : Phase

-- Where `keepAlive` stands: in its `select`, sending on `getStatus`, or returned.
pub data Keeper : Type 0 where
  looping replying returned : Keeper

-- Where the goroutine of the pool stands: elsewhere, in `Status` before either channel operation,
-- or behind the second, with the status and the phase of `serve` at that moment.
pub data Asker : Type 0 where
  elsewhere asking awaiting : Asker
  told : Status → Phase → Asker

pub record Session : Type 0 where
  pub serve : Phase
  pub keeper : Keeper
  pub asker : Asker
  pub status : Status
  pub is_open : Bool

-- `NewConnection` and a successful `Connect`, which starts `serve` and `keepAlive`.
abbrev pub connected : Session
connected = record {
  serve = starting;
  keeper = looping;
  asker = elsewhere;
  status = connecting;
  is_open = true;
}

pub data Step : Session → Session → Type 0 where
  -- `serve` meets `keepAlive` on `setStatus`.
  sets_first :
      {s : Session}
      → s.serve ≡ starting
      → s.keeper ≡ looping
      → s.is_open ≡ true
      → Step s (record s { serve = reading; status = idle })
  sets_idle :
      {s : Session}
      → s.serve ≡ again
      → s.keeper ≡ looping
      → s.is_open ≡ true
      → Step s (record s { serve = reading; status = idle })
  sets_running :
      {s : Session}
      → s.serve ≡ found
      → s.keeper ≡ looping
      → s.is_open ≡ true
      → Step s (record s { serve = handling; status = running })
  -- A request comes, or reading fails; the handler keeps the connection, or does not.
  gets_request : {s : Session} → s.serve ≡ reading → Step s (record s { serve = found })
  breaks : {s : Session} → s.serve ≡ reading → Step s (record s { serve = ending })
  serves : {s : Session} → s.serve ≡ handling → Step s (record s { serve = again })
  fails : {s : Session} → s.serve ≡ handling → Step s (record s { serve = ending })
  -- A send on the closed channel, whose panic `catchPanic` recovers.
  recovers_first :
      {s : Session} → s.serve ≡ starting → s.is_open ≡ false → Step s (record s { serve = ending })
  recovers_idle :
      {s : Session} → s.serve ≡ again → s.is_open ≡ false → Step s (record s { serve = ending })
  recovers_running :
      {s : Session} → s.serve ≡ found → s.is_open ≡ false → Step s (record s { serve = ending })
  -- `Status`, for a connection that the pool still has.
  asks :
      {s : Session} → s.asker ≡ elsewhere → s.is_open ≡ true → Step s (record s { asker = asking })
  meets :
      {s : Session}
      → s.asker ≡ asking
      → s.keeper ≡ looping
      → s.is_open ≡ true
      → Step s (record s { asker = awaiting; keeper = replying })
  tells :
      {s : Session}
      → s.asker ≡ awaiting
      → s.keeper ≡ replying
      → Step s (record s { asker = told s.status s.serve; keeper = looping })
  leaves :
      {s : Session} (status : Status) (serve : Phase)
      → s.asker ≡ told status serve
      → Step s (record s { asker = elsewhere })
  -- A ping fails, or `keepAlive` finds `setStatus` closed.
  ping_fails : {s : Session} → s.keeper ≡ looping → Step s (record s { keeper = returned })
  hears :
      {s : Session}
      → s.keeper ≡ looping
      → s.is_open ≡ false
      → Step s (record s { keeper = returned })
  -- `Close`, by the goroutine of the pool.
  closes :
      {s : Session} → s.asker ≡ elsewhere → s.is_open ≡ true → Step s (record s { is_open = false })

pub data Reach (s : Session) : Session → Type 0 where
  here : Reach s s
  next : {t u : Session} → Reach s t → Step t u → Reach s u
