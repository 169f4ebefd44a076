-- ===== src/App/Upstreams/Stopping.antt =====
-- `Stop` of upstreams.go against the goroutine that `Start` is and the handlers that call
-- `Contains`. They meet on the unbuffered channels `askIP` and `allow`, of which each is open, closed
-- or nil. A step is what one of them does between two points at which it can wait, or a meeting;
-- `Stop` is called once.
pub mod Closed
pub mod Stolen
pub mod Waits
use wsp.Base.{◌≡◌, Bool, false, List, ◌∷◌, ◌++◌, Option}
use wsp.App.Upstreams.{Text, contains}

-- Where a handler stands: outside of `Contains`; sending its address; waiting for the answer; behind
-- the call, with the answer; or stopped by the panic of a send on a closed channel.
pub data Caller : Type 0 where
  resting : Caller
  asking awaiting : Text → Caller
  got : Text → Bool → Caller
  crashed : Caller

-- Where the goroutine stands: in its `select`, sending an answer, behind the deferred function, or
-- stopped by the panic of closing a nil channel there, which ends the process.
pub data Owner : Type 0 where
  selecting : Owner
  answering : Text → Owner
  ended panicked : Owner

pub data Channel : Type 0 where
  opened closed absent : Channel

-- Where `Stop` stands: not called, waiting on `allow`, or behind `n.allow = nil`.
pub data Stopper : Type 0 where
  uncalled waiting stopped : Stopper

pub record Desk (Net : Type 0) : Type 0 where
  pub entries : List (Text × Option Net)
  pub callers : List Caller
  pub owner : Owner
  pub ask_ip : Channel
  pub allow : Channel
  pub stopper : Stopper

module _ {Net : Type 0} (parse_cidr : Text → Option Net) (inside : Net → Text → Bool)
    (LooksUp : List (Text × Option Net) → List (Text × Option Net) → Type 0) where
  pub data Step : Desk Net → Desk Net → Type 0 where
    calls :
        {s : Desk Net} (xs ys : List Caller) (ip : Text)
        → s.callers ≡ xs ++ resting ∷ ys
        → Step s (record s { callers = xs ++ asking ip ∷ ys })
    -- The two meet on `askIP`, and on `allow`.
    takes :
        {s : Desk Net} (xs ys : List Caller) (ip : Text)
        → s.callers ≡ xs ++ asking ip ∷ ys
        → s.owner ≡ selecting
        → s.ask_ip ≡ opened
        → Step s (record s { callers = xs ++ awaiting ip ∷ ys; owner = answering ip })
    answers :
        {s : Desk Net} (xs ys : List Caller) (ip asked : Text)
        → s.callers ≡ xs ++ awaiting ip ∷ ys
        → s.owner ≡ answering asked
        → s.allow ≡ opened
        → Step s (record s {
          callers = xs ++ got ip (contains Net parse_cidr inside s.entries asked) ∷ ys;
          owner = selecting;
        })
    ticks :
        {s : Desk Net} (es : List (Text × Option Net))
        → s.owner ≡ selecting
        → LooksUp s.entries es
        → Step s (record s { entries = es })
    -- `Stop` closes `askIP`.
    closes :
        {s : Desk Net}
        → s.stopper ≡ uncalled
        → s.ask_ip ≡ opened
        → Step s (record s { ask_ip = closed; stopper = waiting })
    crashes :
        {s : Desk Net} (xs ys : List Caller) (ip : Text)
        → s.callers ≡ xs ++ asking ip ∷ ys
        → s.ask_ip ≡ closed
        → Step s (record s { callers = xs ++ crashed ∷ ys })
    -- The goroutine hears of it and runs its deferred function, in which `allow` may be nil.
    ends :
        {s : Desk Net}
        → s.owner ≡ selecting
        → s.ask_ip ≡ closed
        → s.allow ≡ opened
        → Step s (record s { owner = ended; ask_ip = absent; allow = closed })
    panics :
        {s : Desk Net}
        → s.owner ≡ selecting
        → s.ask_ip ≡ closed
        → s.allow ≡ absent
        → Step s (record s { owner = panicked; ask_ip = absent })
    -- A receive from the closed channel gives false.
    denied :
        {s : Desk Net} (xs ys : List Caller) (ip : Text)
        → s.callers ≡ xs ++ awaiting ip ∷ ys
        → s.allow ≡ closed
        → Step s (record s { callers = xs ++ got ip false ∷ ys })
    -- `Stop` waits on the same channel as the handlers, and an answer may reach it.
    steals :
        {s : Desk Net} (asked : Text)
        → s.owner ≡ answering asked
        → s.stopper ≡ waiting
        → s.allow ≡ opened
        → Step s (record s { owner = selecting; allow = absent; stopper = stopped })
    finishes :
        {s : Desk Net}
        → s.stopper ≡ waiting
        → s.allow ≡ closed
        → Step s (record s { allow = absent; stopper = stopped })

  pub data Reach (s : Desk Net) : Desk Net → Type 0 where
    here : Reach s s
    next : {t u : Desk Net} → Reach s t → Step t u → Reach s u
