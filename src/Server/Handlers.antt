-- ===== src/Server/Handlers.antt =====
-- server/handlers.go: the HTTP handlers. What they need from the standard library, from the
-- websocket library and from the other goroutines is an argument.
pub mod Registrations
pub mod Requests
use Prim.Native.String
use Prim.Native.String.{String}
use package.text.Mathlib.Text.{◌==◌ as str_eq}
use wsp.Base.{
  ℕ, ◌⊎◌, inl, inr, suc, Bool, true, false, List, [], ◌∷◌, Option, none, some, ◌==◌, if◌then◌else◌,
}
use wsp.Base.Int.{ℤ, pos}
use wsp.Mulch.{Handshake}
use wsp.Mulch.Response.{proxy_error_code}
use wsp.Runtime.{Result, ok, ◌>>=◌, Chan, send}
use wsp.Server.Dispatch.{PoolConfig}
use wsp.Server.Dispatch.Stats.{Stats}
use wsp.Server.Proxy.{ProxyError, Exchange, Writer, Proxied, proxy_request}

-- The errors that the handlers report.
pub data HandlerError : Type 0 where
  invalid_key no_pools upgrade_failed greeting_failed bad_destination : HandlerError
  custom_key_failed no_client_id no_proxy_target : String → HandlerError
  tunneling_failure : ProxyError → HandlerError

-- A value or an error.
pub data Try (A : Type 0) : Type 0 where
  good : A → Try A
  bad : HandlerError → Try A

-- `http.Header.Get` of a request.
abbrev pub Get : Type 0
Get = String → String

-- `Config`, as far as the handlers read it; `key_validator` gives a secret, or an error as a text.
pub record HandlerConfig : Type 0 where
  pub secret_key : String
  pub id_header : String
  pub key_validator : Option (Get → Try String)

-- What a handler changes: the answer to its request, the counters of registrations if there are
-- metrics, and the channel `newPool`.
pub record Front : Type 0 where
  pub writer : Writer
  pub regs : Option (List (String × ℕ))
  pub new_pool : Chan PoolConfig

-- `WithLabelValues(state).Add(1)`
unfoldable pub count_reg : String → List (String × ℕ) → List (String × ℕ)
count_reg state [] = (state, 1) ∷ []
count_reg state ((k, n) ∷ m) = if str_eq k state then (k, suc n) ∷ m else (k, n) ∷ count_reg state m

abbrev pub add_reg : String → Front → Front
add_reg state f = elim f.regs [ none ↦ f | some m ↦ record f { regs = some (count_reg state m) } ]

-- `http.Error`: the status, if none has been sent, and the text.
abbrev pub http_error : String → ℤ → Writer → Writer
http_error message code w = record w {
  status = elim w.status [ none ↦ some code | some c ↦ some c ];
  written = String.◌++◌ w.written (String.◌++◌ message "\n");
}

-- `ProxyError`; `describe` is the text of an error.
unfoldable pub proxy_error : (HandlerError → String) → HandlerError → String → Front → Front
proxy_error describe e reg_fail f =
    if str_eq reg_fail ""
    then record f { writer = http_error (describe e) proxy_error_code f.writer }
    else add_reg reg_fail f

-- `HandleStats`: the main goroutine is asked for the statistics of the client in the header, or of
-- all. `encode` gives their JSON, or the text of an error.
unfoldable pub handle_stats :
    HandlerConfig → Get → (String → Stats) → (Stats → String ⊎ String) → Writer → Writer
handle_stats config get ask encode w = elim (encode (ask (get config.id_header))) [
  | inl json ↦ record w {
    status = elim w.status [ none ↦ some (pos 200) | some c ↦ some c ];
    written = String.◌++◌ w.written json;
  }
  | inr message ↦ http_error message (pos 500) w
]

-- `getClientID`
unfoldable pub get_client_id : HandlerConfig → Get → Try String
get_client_id config get =
    if str_eq config.id_header ""
    then good ""
    else if str_eq (get config.id_header) ""
    then bad (no_client_id config.id_header)
    else good (get config.id_header)

-- `validateKey`
unfoldable pub validate_key : HandlerConfig → Get → Try String
validate_key config get = elim config.key_validator [
  | some validator ↦ elim (validator get) [ good secret ↦ good secret | bad e ↦ bad e ]
  | none ↦ if str_eq (get "x-secret-key") config.secret_key then good "" else bad invalid_key
]

-- What `HandleRegister` leaves; `sock_closed` is said of the upgraded socket.
pub record Registration : Type 0 where
  pub front : Front
  pub sock_closed : Bool

-- How `Upgrade` of the websocket library ends: with a socket, or with an error, which it may have
-- answered itself.
pub data Upgrade : Type 0 where
  has_socket : Upgrade
  turned_down : (Writer → Writer) → Upgrade

-- `HandleRegister`, behind the validation: `greeting` is the message that the peer sends, if it can
-- be read.
unfoldable pub admit :
    (HandlerError → String) → String → Upgrade → Option Handshake → Front → Result Registration
admit describe secret (turned_down reply) greeting f = ok (record {
  front =
      proxy_error describe upgrade_failed "upgradeFailed" (record f { writer = reply f.writer });
  sock_closed = false;
})
admit describe secret has_socket none f =
    ok (record {
      front = proxy_error describe greeting_failed "greetingFailed" f;
      sock_closed = true;
    })
admit describe secret has_socket (some g) f = do
  ch ← send f.new_pool (record { handshake = g; secret = secret })
  ok (record { front = add_reg "success" (record f { new_pool = ch }); sock_closed = false })

-- `HandleRegister`
unfoldable pub handle_register :
    (HandlerError → String)
    → HandlerConfig
    → Get
    → Upgrade
    → Option Handshake
    → Front
    → Result Registration
handle_register describe config get upgrade greeting f = elim (validate_key config get) [
  | bad e ↦ ok (record { front = proxy_error describe e "keyFailed" f; sock_closed = false })
  | good secret ↦ admit describe secret upgrade greeting f
]

-- What becomes of the connection that a request uses.
pub data Disposal : Type 0 where
  unused : Disposal
  gave closed_it : ℕ → Disposal

pub record Handled : Type 0 where
  pub front : Front
  pub disposal : Disposal

-- What a request depends on: whether the address of the destination can be parsed, the number of
-- pools, the connection that a dispatcher finds for a client, and the exchange on a connection.
pub record Surroundings : Type 0 where
  pub parses : String → Bool
  pub pools : ℕ
  pub dispatch : String → Option ℕ
  pub exchange : ℕ → Exchange

-- `HandleRequest`, once it has a connection.
unfoldable pub tunnel : (HandlerError → String) → Surroundings → ℕ → Front → Result Handled
tunnel describe s c f = do
  p ← proxy_request (s.exchange c) f.writer
  elim p.error [
    | none ↦ ok (record { front = record f { writer = p.writer }; disposal = gave c })
    | some e ↦ ok (record {
      front = proxy_error describe (tunneling_failure e) "" (record f { writer = p.writer });
      disposal = closed_it c;
    })
  ]

abbrev pub refuse : (HandlerError → String) → HandlerError → Front → Result Handled
refuse describe e f = ok (record { front = proxy_error describe e "" f; disposal = unused })

-- The checks of `HandleRequest`, up to the client whose pool is asked for a connection.
unfoldable pub target_of : HandlerConfig → Get → (String → Bool) → ℕ → Try String
target_of config get parses pools =
    let to = get "X-PROXY-DESTINATION" in
    if (if str_eq to "" then true else parses to)
    then (if pools == 0 then bad no_pools else get_client_id config get)
    else bad bad_destination

-- `HandleRequest`
unfoldable pub handle_request :
    (HandlerError → String) → HandlerConfig → Get → Surroundings → Front → Result Handled
handle_request describe config get s f = elim (target_of config get s.parses s.pools) [
  | bad e ↦ refuse describe e f
  | good id ↦ elim (s.dispatch id) [
    | none ↦ refuse describe (no_proxy_target id) f
    | some c ↦ tunnel describe s c f
  ]
]
