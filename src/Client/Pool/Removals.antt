-- ===== src/Client/Pool/Removals.antt =====
-- `Remove` of client/pool.go against `Shutdown`: the goroutines `serve` of the connections, which
-- call `Remove` when they end, and the goroutine that `Start` starts. They meet on the unbuffered
-- channels `conChan` and `repChan`. The goroutine of the pool calls `connector` too, and with it
-- `Connect`, which calls `Remove` when the greeting cannot be sent. A step is what one of them does
-- between two points at which it can wait, or a meeting.
pub mod Crash
pub mod Greeting
use wsp.Base.{◌≡◌, Bool, true, false, List, [], ◌∷◌, ◌++◌}

-- Where `serve` stands: in its loop; behind the test of `shutdown` in the deferred `Remove`,
-- sending on `conChan`; waiting on `repChan`; returned; or stopped by the panic of a send on a
-- closed channel, which nothing recovers there.
pub data Serve : Type 0 where
  serving removing waiting returned crashed : Serve

-- Where the goroutine of the pool stands: in its `select`; about to send on `repChan`; in
-- `connector`; in the `Remove` of `Connect`, sending on `conChan` or waiting on `repChan`; or behind
-- the deferred closes.
pub data Owner : Type 0 where
  selecting answering connecting removing_itself waiting_itself finished : Owner

-- It receives from `conChan` in its `select` only, and sends on `repChan` behind it only.
abbrev pub receives : Owner → Bool
receives selecting = true
receives _ = false

abbrev pub replies : Owner → Bool
replies answering = true
replies _ = false

-- `is_shut` stands for the field `shutdown` and the closed channel `done`, which `Shutdown` changes
-- one after the other.
pub record Removals : Type 0 where
  pub serves : List Serve
  pub owner : Owner
  pub is_shut : Bool

pub data Step : Removals → Removals → Type 0 where
  -- `serveHandler` returns false: `Remove` goes on only if the pool is not shut down.
  fails :
      {s : Removals} (xs ys : List Serve)
      → s.serves ≡ xs ++ serving ∷ ys
      → s.is_shut ≡ false
      → Step s (record s { serves = xs ++ removing ∷ ys })
  leaves :
      {s : Removals} (xs ys : List Serve)
      → s.serves ≡ xs ++ serving ∷ ys
      → s.is_shut ≡ true
      → Step s (record s { serves = xs ++ returned ∷ ys })
  -- The two meet on `conChan`, and on `repChan`.
  takes :
      {s : Removals} (xs ys : List Serve)
      → s.serves ≡ xs ++ removing ∷ ys
      → receives s.owner ≡ true
      → Step s (record s { serves = xs ++ waiting ∷ ys; owner = answering })
  answers :
      {s : Removals} (xs ys : List Serve)
      → s.serves ≡ xs ++ waiting ∷ ys
      → replies s.owner ≡ true
      → Step s (record s { serves = xs ++ returned ∷ ys; owner = selecting })
  -- A tick: `connector` opens connections one by one.
  dials : {s : Removals} → s.owner ≡ selecting → Step s (record s { owner = connecting })
  opens :
      {s : Removals}
      → s.owner ≡ connecting
      → Step s (record s { serves = s.serves ++ serving ∷ [] })
  rests : {s : Removals} → s.owner ≡ connecting → Step s (record s { owner = selecting })
  -- A greeting cannot be sent: `Remove` goes on only if the pool is not shut down.
  greeting_fails :
      {s : Removals}
      → s.owner ≡ connecting
      → s.is_shut ≡ false
      → Step s (record s { owner = removing_itself })
  greeting_left :
      {s : Removals}
      → s.owner ≡ connecting
      → s.is_shut ≡ true
      → Step s (record s { owner = selecting })
  -- The goroutine meets its receiver, and the sender of its reply, like a connection does.
  takes_itself :
      {s : Removals}
      → s.owner ≡ removing_itself
      → receives s.owner ≡ true
      → Step s (record s { owner = waiting_itself })
  answers_itself :
      {s : Removals}
      → s.owner ≡ waiting_itself
      → replies s.owner ≡ true
      → Step s (record s { owner = selecting })
  shuts : {s : Removals} → s.is_shut ≡ false → Step s (record s { is_shut = true })
  -- The `select` receives from `done`, and the channels are closed.
  finishes :
      {s : Removals}
      → s.owner ≡ selecting
      → s.is_shut ≡ true
      → Step s (record s { owner = finished })
  wakes :
      {s : Removals} (xs ys : List Serve)
      → s.serves ≡ xs ++ waiting ∷ ys
      → s.owner ≡ finished
      → Step s (record s { serves = xs ++ returned ∷ ys })
  crashes :
      {s : Removals} (xs ys : List Serve)
      → s.serves ≡ xs ++ removing ∷ ys
      → s.owner ≡ finished
      → Step s (record s { serves = xs ++ crashed ∷ ys })

pub data Reach (s : Removals) : Removals → Type 0 where
  here : Reach s s
  next : {t u : Removals} → Reach s t → Step t u → Reach s u
