-- ===== src/Rendezvous.antt =====
-- One goroutine that many others ask over two unbuffered channels, which they all share: `askIP`
-- and `allow` of upstreams.go, `getStats` and `repStats` of server/server.go. A step is what one of
-- them does between two points at which it can wait, or a meeting.
pub mod Own
use wsp.Base.{ℕ, zero, suc, ◌≡◌, List, [], ◌∷◌, ◌++◌}

-- Where a caller stands: it has nothing to ask, sends its question, waits for the answer, or has
-- got one; then the state that the goroutine had is remembered.
pub data Caller (St Q A : Type 0) : Type 0 where
  resting : Caller St Q A
  asking awaiting : Q → Caller St Q A
  got : St → Q → A → Caller St Q A

-- Where the goroutine stands: in its `select`, or sending an answer.
pub data Owner (A : Type 0) : Type 0 where
  selecting : Owner A
  answering : A → Owner A

pub record Calls (St Q A : Type 0) : Type 0 where
  pub callers : List (Caller St Q A)
  pub owner : Owner A
  pub state : St

pub data Step {St Q A : Type 0} (answer : St → Q → A) (Changes : St → St → Type 0)
    : Calls St Q A → Calls St Q A → Type 0 where
  comes :
      {s : Calls St Q A} (xs ys : List (Caller St Q A)) (q : Q)
      → s.callers ≡ xs ++ resting ∷ ys
      → Step answer Changes s (record s { callers = xs ++ asking q ∷ ys })
  meets :
      {s : Calls St Q A} (xs ys : List (Caller St Q A)) (q : Q)
      → s.callers ≡ xs ++ asking q ∷ ys
      → s.owner ≡ selecting
      → Step answer Changes s
          (record s { callers = xs ++ awaiting q ∷ ys; owner = answering (answer s.state q) })
  replies :
      {s : Calls St Q A} (xs ys : List (Caller St Q A)) (q : Q) (a : A)
      → s.callers ≡ xs ++ awaiting q ∷ ys
      → s.owner ≡ answering a
      → Step answer Changes s (record s { callers = xs ++ got s.state q a ∷ ys; owner = selecting })
  leaves :
      {s : Calls St Q A} (xs ys : List (Caller St Q A)) (st : St) (q : Q) (a : A)
      → s.callers ≡ xs ++ got st q a ∷ ys
      → Step answer Changes s (record s { callers = xs ++ resting ∷ ys })
  -- Another case of the `select`.
  changes :
      {s : Calls St Q A} (st : St)
      → s.owner ≡ selecting
      → Changes s.state st
      → Step answer Changes s (record s { state = st })

pub data Reach {St Q A : Type 0} (answer : St → Q → A) (Changes : St → St → Type 0)
    (s : Calls St Q A) : Calls St Q A → Type 0 where
  here : Reach answer Changes s s
  next :
      {t u : Calls St Q A}
      → Reach answer Changes s t
      → Step answer Changes t u
      → Reach answer Changes s u

module _ {St Q A : Type 0} where
  abbrev pub all_resting : ℕ → List (Caller St Q A)
  all_resting zero = []
  all_resting (suc n) = resting ∷ all_resting n

  -- So many callers, none of which has asked yet.
  abbrev pub started : ℕ → St → Calls St Q A
  started n st = record { callers = all_resting n; owner = selecting; state = st }
