-- ===== src/Server/Connection.antt =====
-- server/connection.go: one websocket connection from a peer. A goroutine per connection reads the
-- socket; the handlers take the connection, use it and give it back. The locked methods are atomic.
use wsp.Base.{ℕ, suc, ◌≡◌, refl, Bool, true, false, ◌⊎◌, inl, inr, ◌≢◌, arith}
use wsp.Runtime.{Result, ok, ◌>>=◌, close_flag}
use Prim.Native.String.{String}

pub data ConnectionStatus : Type 0 where
  idle busy closed : ConnectionStatus

abbrev pub to_string : ConnectionStatus → String
to_string idle = "idle"
to_string busy = "busy"
to_string closed = "closed"

-- The channel `nextResponse` and the socket are kept as whether they are open.
pub record Connection : Type 0 where
  pub connected : ℕ
  pub status : ConnectionStatus
  pub idle_since : ℕ
  pub requests : ℕ
  pub next_response : Bool
  pub sock : Bool

-- The value that `NewConnection` fills in, before it gives the connection to the pool.
abbrev pub fresh : ℕ → Connection
fresh now = record {
  connected = now;
  status = idle;
  idle_since = 0;
  requests = 0;
  next_response = true;
  sock = true;
}

-- `close`, with the lock held.
unfoldable pub close : Connection → Result Connection
close c = elim c.status [
  | closed ↦ ok c
  | _ ↦ do
    next_response ← close_flag c.next_response
    ok (record c { next_response = next_response; sock = false; status = closed })
]

-- `Take`: the connection after the call, and whether the caller may use it.
unfoldable pub take : Connection → Connection × Bool
take c = elim c.status [
  | idle ↦ (record c { requests = suc c.requests; status = busy }, true)
  | _ ↦ (record c { requests = suc c.requests }, false)
]

-- The first part of `Give`, for a connection that is not closed.
abbrev pub mark_idle : ℕ → Connection → Connection
mark_idle now c = record c { idle_since = now; status = idle }

-- `nextResponse` is closed exactly when the status says so, and then the socket is closed too.
abbrev pub IsSound : Connection → Type 0
IsSound c =
    ((c.status ≡ closed) × (c.next_response ≡ false) × (c.sock ≡ false))
    ⊎ ((c.status ≢ closed) × (c.next_response ≡ true) × (c.sock ≡ true))

-- What `close` makes of a sound connection.
abbrev pub shut : Connection → Connection
shut c = record c { next_response = false; sock = false; status = closed }

pub close-eq-shut : (c : Connection) → IsSound c → close c ≡ ok (shut c)
unfolding close
close-eq-shut c s = ground arith

pub shut-IsSound : (c : Connection) → IsSound (shut c)
shut-IsSound c = inl (refl, refl, refl)

pub take-IsSound : (c : Connection) → IsSound c → IsSound (take c).0
unfolding take
take-IsSound c s = ground arith

pub fresh-IsSound : (now : ℕ) → IsSound (fresh now)
fresh-IsSound now = inr (λ e. cc, refl, refl)
