-- ===== src/Tunnel/Dialing.antt =====
-- A client dials the server of mulery.go: `Connect` at the client, `HandleRegister` with the
-- validator of the application, and `registerPool` in the main goroutine.
use Prim.Native.String.{String}
use wsp.Base.{
  ℕ, ◌<◌, ◌≡◌, refl, Bool, true, false, List, [], ◌∷◌, Option, some, length, if◌then◌else◌,
}
use wsp.Mulch.{Handshake}
use wsp.Runtime.{Result, ok, ◌>>=◌, Returns, Returns-bind}
use wsp.Client.Config.{Config}
use wsp.Client.Dial.{dial_header, greeting_of, get_id}
use wsp.Server.Pool.{Pool}
use wsp.Server.Pool.Channel.{idle_only}
use wsp.Server.Handlers.{HandlerError, good, HandlerConfig, Front, handle_register, has_socket}
use wsp.Server.Handlers.Registrations.{queued}
use wsp.Server.Dispatch.{
  Server, PoolConfig, World, served, pool_for, register_pool, dispatch_request,
}
use wsp.Server.Dispatch.Register.{AllRunning, Fits, key_of}
use wsp.Server.Dispatch.Request.{IsTaken}
use wsp.Server.Dispatch.Arrival.{register_pool-serves}
use wsp.App.Keys.{KeyError, Auth, key_validator}
use wsp.App.Keys.Admission.{is_authorized, handle_register-authorized}

-- The main goroutine takes the queued pools up.
unfoldable pub take_up : World → List PoolConfig → Server → Result Server
take_up w [] s = ok s
take_up w (client ∷ rest) s = do t ← register_pool w client s; take_up w rest t

-- The peers: the server's texts of errors, its auth proxy, its configuration and its handler; and
-- `wire`, what the server reads of a greeting in JSON.
pub record Site : Type 0 where
  pub describe_key : KeyError → String
  pub auth : Auth
  pub describe : HandlerError → String
  pub config : HandlerConfig
  pub wire : Handshake → Option Handshake
  pub front : Front
  pub world : World

-- One connection that a client opens.
unfoldable pub dial : Site → Config → Server → Result Server
dial site c s = do
  r ←
      handle_register site.describe site.config (dial_header c) has_socket
        (site.wire (greeting_of c)) site.front
  take_up site.world r.front.new_pool.buffer s

-- The pool that the server is to make for the client.
abbrev pub peer : Config → PoolConfig
peer c = record { handshake = greeting_of c; secret = c.secret_key }

-- What a client has achieved that has dialed the server `s`.
abbrev pub Reaches : Site → Config → Server → ℕ → ℕ → Bool → Server → Type 0
Reaches site c s fuel thread false t = t ≡ s
Reaches site c s fuel thread true t =
    let id = get_id site.world.sha256_hex c in
    let r = dispatch_request fuel thread id t in (n : ℕ) × (r.0 ≡ served n) × IsTaken id r.0 r.1

take_up-Reaches :
    (site : Site) (c : Config) (s : Server) (p : Pool) (fuel thread : ℕ) (accepted : Bool)
    → AllRunning s
    → Fits site.world (peer c)
    → pool_for site.world (peer c) (key_of site.world (peer c)) s ≡ ok p
    → length (idle_only p.heap p.idle_chan.buffer) < p.idle_chan.cap
    → p.idle_chan.cap < fuel
    → Returns
        (take_up site.world
          (if accepted then queued (good c.secret_key) has_socket (some (greeting_of c)) else [])
          s)
        (Reaches site c s fuel thread accepted)
unfolding take_up greeting_of get_id
take_up-Reaches site c s p fuel thread false all fits known space enough = refl
take_up-Reaches site c s p fuel thread true all fits known space enough =
    Returns-bind (register_pool site.world (peer c) s) _ _ _
      (register_pool-serves site.world (peer c) s p fuel thread all fits known space enough)
      λ t (n, by_n, _, taken). (n, by_n, taken)

-- A client dials a server that has the validator of the application, running pools and nothing in
-- its queue. The greeting is read as it was sent, the size that it asks for is one that the runtime
-- can allocate, and the channel of the client's pool has room and is shorter than the dispatcher has
-- rounds. If the key has 36 bytes and the auth proxy accepts it, then a request for the identity
-- that the client's own `GetID` gives is served at once, by a connection that is busy afterwards;
-- otherwise the server is as it was.
pub dial-Reaches :
    (site : Site) (c : Config) (s : Server) (p : Pool) (fuel thread : ℕ)
    → site.config.key_validator ≡ some (key_validator site.describe_key site.auth)
    → site.wire (greeting_of c) ≡ some (greeting_of c)
    → (site.front.new_pool.is_open ≡ true)
      × (site.front.new_pool.buffer ≡ [])
      × (0 < site.front.new_pool.cap)
    → AllRunning s
    → Fits site.world (peer c)
    → pool_for site.world (peer c) (key_of site.world (peer c)) s ≡ ok p
    → length (idle_only p.heap p.idle_chan.buffer) < p.idle_chan.cap
    → p.idle_chan.cap < fuel
    → Returns (dial site c s) (Reaches site c s fuel thread (is_authorized site.auth c.secret_key))
unfolding dial
dial-Reaches site c s p fuel thread validates read (up, empty, room) all fits known space enough =
    Returns-bind
      (handle_register site.describe site.config (dial_header c) has_socket
        (site.wire (greeting_of c)) site.front)
      _ _ _
      (handle_register-authorized site.describe_key site.auth site.describe site.config
        (dial_header c) has_socket (site.wire (greeting_of c)) site.front validates up
        (rw empty room))
      λ r e.
        rw (e, empty, read)
          (take_up-Reaches site c s p fuel thread (is_authorized site.auth c.secret_key) all fits
            known space enough)
