-- ===== src/Runtime.antt =====
-- What the Go runtime does at a channel, documented in the language's specification: the parts of
-- the server and of the client keep their channels as values of `Chan`.
use wsp.Base.{
  ◌≡◌, refl, ℕ, Bool, true, false, List, [], ◌∷◌, ◌++◌, Option, none, some, length, ltb, leb,
  if◌then◌else◌,
}
use wsp.Base.Int.{ℤ, pos, negsuc}

-- The run-time panics that the code can meet, and its own calls of `panic`.
pub data Fault : Type 0 where
  close_of_closed send_on_closed chan_size nil_dereference index_range invalid_code by_the_code :
      Fault

-- A call returns, panics, or blocks for ever where no other goroutine comes to its help.
pub data Result {ℓ} (A : Type ℓ) : Type ℓ where
  ok : A → Result A
  panics : Fault → Result A
  blocks : Result A

infixl 5 ◌>>=◌
abbrev pub ◌>>=◌ {ℓ κ} : {A : Type ℓ} {B : Type κ} → Result A → (A → Result B) → Result B
ok a >>= f = f a
panics e >>= f = panics e
blocks >>= f = blocks

-- A buffered channel; the oldest message first.
pub record Chan {ℓ} (A : Type ℓ) : Type ℓ where
  pub buffer : List A
  pub cap : ℕ
  pub is_open : Bool

module _ {ℓ} {A : Type ℓ} where
  -- `make(chan A, size)`; the runtime refuses a negative size and one above its limit.
  abbrev pub make_chan : ℕ → ℤ → Result (Chan A)
  make_chan limit (pos n) =
      if leb n limit then ok (record { buffer = []; cap = n; is_open = true }) else panics chan_size
  make_chan limit (negsuc n) = panics chan_size

  -- `ch <- a`
  abbrev pub send : Chan A → A → Result (Chan A)
  send ch a =
      if ch.is_open
      then (if ltb (length ch.buffer) ch.cap
          then ok (record ch { buffer = ch.buffer ++ a ∷ [] })
          else blocks)
      else panics send_on_closed

  abbrev receive_from : List A → Chan A → Result (Option A × Chan A)
  receive_from [] ch = if ch.is_open then blocks else ok (none, ch)
  receive_from (a ∷ rest) ch = ok (some a, record ch { buffer = rest })

  -- `a, ok := <-ch`: a closed channel gives what its buffer holds, and then the zero value.
  abbrev pub receive : Chan A → Result (Option A × Chan A)
  receive ch = receive_from ch.buffer ch

  -- `close(ch)`
  abbrev pub close_chan : Chan A → Result (Chan A)
  close_chan ch = if ch.is_open then ok (record ch { is_open = false }) else panics close_of_closed

-- `close` of an unbuffered channel of which only its state is kept.
abbrev pub close_flag : Bool → Result Bool
close_flag true = ok false
close_flag false = panics close_of_closed

-- The call returns a value of which `P` holds: it neither panics nor blocks.
abbrev pub Returns {ℓ} : {A : Type ℓ} → Result A → (A → Type 0) → Type 0
Returns (ok a) P = P a
Returns (panics e) P = ⊥
Returns blocks P = ⊥

pub Returns-bind {ℓ κ} :
    {A : Type ℓ} {B : Type κ} (m : Result A) (f : A → Result B) (P : A → Type 0) (Q : B → Type 0)
    → Returns m P
    → ((a : A) → P a → Returns (f a) Q)
    → Returns (m >>= f) Q
Returns-bind (ok a) f P Q h k = k a h
Returns-bind (panics e) f P Q h k = elim h [ ]
Returns-bind blocks f P Q h k = elim h [ ]

pub Returns-mono {ℓ} :
    {A : Type ℓ} (m : Result A) (P Q : A → Type 0)
    → Returns m P
    → ((a : A) → P a → Q a)
    → Returns m Q
Returns-mono (ok a) P Q h k = k a h
Returns-mono (panics e) P Q h k = elim h [ ]
Returns-mono blocks P Q h k = elim h [ ]

-- The value of a call that returns.
pub Returns-ok {ℓ} :
    {A : Type ℓ} (m : Result A) {P : A → Type 0} → Returns m P → (a : A) × (m ≡ ok a) × P a
Returns-ok (ok a) h = (a, refl, h)
Returns-ok (panics e) h = elim h [ ]
Returns-ok blocks h = elim h [ ]

-- `P` holds of the value, if the call returns one.
abbrev pub WhenOk {ℓ} : {A : Type ℓ} → Result A → (A → Type 0) → Type 0
WhenOk (ok a) P = P a
WhenOk (panics e) P = Unit
WhenOk blocks P = Unit

pub Returns-and {ℓ} :
    {A : Type ℓ} (m : Result A) (P Q : A → Type 0)
    → Returns m P
    → WhenOk m Q
    → Returns m (λ a. P a × Q a)
Returns-and (ok a) P Q h k = (h, k)
Returns-and (panics e) P Q h k = elim h [ ]
Returns-and blocks P Q h k = elim h [ ]

-- The value that a call returns, or `a` where it returns none.
abbrev pub value_or {ℓ} : {A : Type ℓ} → A → Result A → A
value_or a (ok b) = b
value_or a (panics e) = a
value_or a blocks = a

pub Returns-value_or {ℓ} :
    {A : Type ℓ} (a : A) (m : Result A) (P : A → Type 0) → Returns m P → P (value_or a m)
Returns-value_or a (ok b) P h = h
Returns-value_or a (panics e) P h = elim h [ ]
Returns-value_or a blocks P h = elim h [ ]

-- What holds of the rest after any value holds of the whole, if it returns.
pub WhenOk-bind {ℓ κ} :
    {A : Type ℓ} {B : Type κ} (m : Result A) (f : A → Result B) (P : A → Type 0) (Q : B → Type 0)
    → WhenOk m P
    → ((a : A) → P a → WhenOk (f a) Q)
    → WhenOk (m >>= f) Q
WhenOk-bind (ok a) f P Q h k = k a h
WhenOk-bind (panics e) f P Q h k = tt
WhenOk-bind blocks f P Q h k = tt

pub WhenOk-any {ℓ} : {A : Type ℓ} (m : Result A) → WhenOk m (λ _. Unit {0})
WhenOk-any (ok a) = tt
WhenOk-any (panics e) = tt
WhenOk-any blocks = tt

pub WhenOk-mono {ℓ} :
    {A : Type ℓ} (m : Result A) (P Q : A → Type 0) → WhenOk m P → ((a : A) → P a → Q a) → WhenOk m Q
WhenOk-mono (ok a) P Q h k = k a h
WhenOk-mono (panics e) P Q h k = tt
WhenOk-mono blocks P Q h k = tt

-- Two facts about the value of one call.
pub Returns-both {ℓ} :
    {A : Type ℓ} (m : Result A) (P Q : A → Type 0)
    → Returns m P
    → Returns m Q
    → Returns m (λ a. P a × Q a)
Returns-both (ok a) P Q h k = (h, k)
Returns-both (panics e) P Q h k = elim h [ ]
Returns-both blocks P Q h k = elim h [ ]
