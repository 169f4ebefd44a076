-- ===== src/App/Start.antt =====
-- mulery.go and cmd/mulery/main.go: the application from its configuration file on. The reader of
-- configuration files and the library that obtains certificates are parameters.
pub mod Booted
pub mod Guarded
pub mod Print
use wsp.Base.{
  ℕ, ◌*◌, ◌^◌, Bool, true, false, not, ◌&&◌, List, [], ◌∷◌, map, Option, none, some, length, ltb,
  if◌then◌else◌,
}
use wsp.Base.Int.{pos}
use wsp.Runtime.{Result, ok, panics, ◌>>=◌}
use wsp.App.Logs.{LogConfig, Logs, is_blank, setup_logs}
use wsp.App.Paths.{same}
use wsp.App.Upstreams.{Text, Lookup, Entry, parse_and_lookup, make_ips}
use wsp.App.Routes.{Request, Answer, serve_http}
use wsp.Server.Dispatch.{Server, new_server, close_new_pool}

-- `Config` of mulery.go with the fields of `server.Config` that the application hands on. Times are
-- numbers of nanoseconds.
pub record AppConfig : Type 0 where
  pub listen_addr : Text
  pub auth_url : Text
  pub auth_header : Text
  pub log_headers : List (Text × Text)
  pub upstreams : List Text
  pub cache_dir : Text
  pub cf_token : Text
  pub email : Text
  pub ssl_names : List Text
  pub logs : LogConfig
  pub redirect_url : Text
  pub dispatchers : ℕ
  pub timeout : ℕ
  pub idle_timeout : ℕ
  pub secret_key : Text
  pub id_header : Text

-- `server.NewConfig`; what it does not name is empty.
abbrev pub new_config : AppConfig
new_config = record {
  listen_addr = [];
  auth_url = [];
  auth_header = [];
  log_headers = [];
  upstreams = [];
  cache_dir = [];
  cf_token = [];
  email = [];
  ssl_names = [];
  logs = record {
    log_file = [];
    log_files = pos 0;
    log_file_mb = pos 0;
    http_log = [];
    http_logs = pos 0;
    http_log_mb = pos 0;
  };
  redirect_url = [];
  dispatchers = 1;
  timeout = 10 ^ 9;
  idle_timeout = 61 * 10 ^ 9;
  secret_key = [];
  id_header = [];
}

-- A certificate is only asked for if a directory, names and a token are configured.
abbrev pub wants_tls : AppConfig → Bool
wants_tls c =
    not (is_blank c.cache_dir) && (ltb 0 (length c.ssl_names) && not (is_blank c.cf_token))

-- The application, or the place where the process has ended before.
pub data Boot {ℓ} (A : Type ℓ) : Type ℓ where
  config_error tls_error : Boot A
  up : A → Boot A

-- What `LoadConfigFile` gives.
pub record Loaded (Net : Type 0) : Type 0 where
  pub config : AppConfig
  pub allow : List (Text × Option Net)

-- The running application: the table of networks, the loggers, the server of the tunnel and the
-- certificates of the web server.
pub record App (Net Tls : Type 0) : Type 0 where
  pub config : AppConfig
  pub allow : List (Text × Option Net)
  pub logs : Logs
  pub dispatch : Server
  pub tls : Option Tls

-- What reaches a running application: a tick, when the names of the upstreams are looked up again,
-- or a request; or the listener of the web server fails.
pub data Event : Type 0 where
  refreshes : Lookup → Event
  arrives : Request → Event
  listener_fails : Event

module _ (Net : Type 0) (parse_cidr : Text → Option Net) (inside : Net → Text → Bool) where
  -- `LoadConfigFile`; `read` fills in what the file at a path says.
  unfoldable pub load_config :
      (Text → AppConfig → Option AppConfig) → Lookup → Text → Result (Option (Loaded Net))
  load_config read lookup path = elim (read path new_config) [
    | none ↦ ok none
    | some c ↦ do
      allow ← make_ips Net parse_cidr inside lookup c.upstreams
      ok (some (record { config = c; allow = allow }))
  ]

  -- The goroutine of `AllowedIPs` and the handlers of the web server, one event after the other;
  -- `clean` is the canonical form of a path. `runWebServer` ends the process when its listener fails;
  -- nothing in the code closes the listener.
  unfoldable pub live :
      (Text → Text) → List Event → Text → List (Text × Option Net) → Result (List Answer)
  live clean [] redirect_url allow = ok []
  live clean (listener_fails ∷ es) redirect_url allow = ok []
  live clean (refreshes lookup ∷ es) redirect_url allow = do
    allow' ← parse_and_lookup Net parse_cidr inside lookup (map (λ e. e.0) allow) allow
    live clean es redirect_url allow'
  live clean (arrives r ∷ es) redirect_url allow = do
    a ← serve_http Net parse_cidr inside clean allow redirect_url r
    answers ← live clean es redirect_url allow
    ok (a ∷ answers)

module _ {Net Tls : Type 0} where
  abbrev pub started : Loaded Net → Logs → Option Tls → App Net Tls
  started l logs tls = record {
    config = l.config;
    allow = l.allow;
    logs = logs;
    dispatch = new_server l.config.dispatchers l.config.idle_timeout;
    tls = tls;
  }

  -- `Start`, whose handlers `serve_http` has; `obtain` asks for certificates.
  unfoldable pub start : (List Text → Option Tls) → Loaded Net → Logs → Boot (App Net Tls)
  start obtain l logs =
      if wants_tls l.config
      then elim (obtain l.config.ssl_names) [
        | none ↦ tls_error
        | some t ↦ up (started l logs (some t))
      ]
      else up (started l logs none)

module _ (Net Tls : Type 0) (parse_cidr : Text → Option Net) (inside : Net → Text → Bool) where
  -- `main`, up to the point where it waits for the signal that ends the process; `opens` says which log files can be opened.
  unfoldable pub main :
      (Text → AppConfig → Option AppConfig)
      → Lookup
      → (Text → Bool)
      → (List Text → Option Tls)
      → Text
      → Result (Boot (App Net Tls))
  main read lookup opens obtain path = do
    loaded ← load_config Net parse_cidr inside read lookup path
    elim loaded [
      | none ↦ ok config_error
      | some l ↦ do logs ← setup_logs opens l.config.logs; ok (start obtain l logs)
    ]
