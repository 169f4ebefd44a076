-- ===== src/App/Start/Booted.antt =====
-- How `main` of cmd/mulery/main.go can go, and what it has set up when the application runs.
use wsp.Base.{
  ◌≡◌, refl, ◌⊎◌, inl, inr, Bool, true, false, List, [], map, Option, none, some, Bool-cases,
  Option-cases, if◌then◌else◌,
}
use wsp.Runtime.{Result, ok, panics, by_the_code, Returns, Returns-ok}
use wsp.App.Logs.{Sink, stdout, stderr, rotated, LogConfig, Logs, is_blank, shares, setup_logs}
use wsp.App.Upstreams.{Text, Lookup, make_ips}
use wsp.App.Upstreams.Access.{Fits, empty-Old, parse_and_lookup-Fits}
use wsp.App.Start.{
  AppConfig, new_config, wants_tls, App, Boot, config_error, tls_error, up, started, load_config,
  start, main, Event, live,
}
use wsp.App.Start.Guarded.{Fair, AllGuarded, live-AllGuarded}

abbrev pub is_some : {A : Type 0} → Option A → Bool
is_some none = false
is_some (some a) = true

-- Either all log files can be opened, or the code panics.
setup_logs-cases :
    (opens : Text → Bool) (c : LogConfig)
    → ((logs : Logs) × (setup_logs opens c ≡ ok logs)) ⊎ (setup_logs opens c ≡ panics by_the_code)
unfolding setup_logs
setup_logs-cases opens c = elim (Bool-cases (if shares c then true else opens c.http_log)) [
  | inr e ↦ inr (rw e refl)
  | inl e ↦ elim (Bool-cases (is_blank c.log_file)) [
    | inl b ↦ inl (
      record { app = stderr; http = if shares c then stdout else own; errors = stderr },
      rw (e, b) refl,
    )
    | inr b ↦ elim (Bool-cases (opens c.log_file)) [
      | inl o ↦ inl (
        record { app = file; http = if shares c then file else own; errors = file },
        rw (e, b, o) refl,
      )
      | inr o ↦ inr (rw (e, b, o) refl)
    ]
  ]
]
  where
    own : Sink
    own = rotated c.http_log c.http_log_mb c.http_logs

    file : Sink
    file = rotated c.log_file c.log_file_mb c.log_files

module _ (Net Tls : Type 0) (parse_cidr : Text → Option Net) (inside : Net → Text → Bool)
    (clean : Text → Text) (Known : Lookup → Type 0) (read : Text → AppConfig → Option AppConfig)
    (lookup : Lookup) (opens : Text → Bool) (obtain : List Text → Option Tls) (path : Text) where
  -- The ways in which `main` can go, when so much reaches the application.
  pub data Booted (es : List Event) (r : Result (Boot (App Net Tls))) : Type 0 where
    unreadable : read path new_config ≡ none → r ≡ ok config_error → Booted es r
    no_log_file :
        (c : AppConfig)
        → read path new_config ≡ some c
        → setup_logs opens c.logs ≡ panics by_the_code
        → r ≡ panics by_the_code
        → Booted es r
    no_certificates :
        (c : AppConfig)
        → read path new_config ≡ some c
        → wants_tls c ≡ true
        → obtain c.ssl_names ≡ none
        → r ≡ ok tls_error
        → Booted es r
    -- It runs with the configuration of the file, and guards what it shows.
    runs :
        (c : AppConfig) (app : App Net Tls)
        → read path new_config ≡ some c
        → app.config ≡ c
        → is_some app.tls ≡ wants_tls c
        → Returns
            (live Net parse_cidr inside clean es c.redirect_url app.allow)
            (AllGuarded Net parse_cidr inside clean Known c.upstreams es)
        → r ≡ ok (up app)
        → Booted es r

  make_ips-Fits :
      (us : List Text)
      → Known lookup
      → Returns (make_ips Net parse_cidr inside lookup us) (Fits Net parse_cidr inside Known us)
  unfolding make_ips
  make_ips-Fits us known =
      parse_and_lookup-Fits Net parse_cidr inside Known lookup us (map (λ u. ([], none)) us) known
        (empty-Old Net parse_cidr inside Known us)

  start-Booted :
      (es : List Event) (c : AppConfig) (allow : List (Text × Option Net)) (logs : Logs)
      → read path new_config ≡ some c
      → Returns
          (live Net parse_cidr inside clean es c.redirect_url allow)
          (AllGuarded Net parse_cidr inside clean Known c.upstreams es)
      → Booted es (ok (start obtain (record { config = c; allow = allow }) logs))
  unfolding start
  start-Booted es c allow logs e g = elim (Bool-cases (wants_tls c)) [
    | inr w ↦ rw w (
        runs c (started (record { config = c; allow = allow }) logs none) e refl (rw w refl) g refl)
    | inl w ↦ elim (Option-cases (obtain c.ssl_names)) [
      | inl o ↦ rw (w, o) (no_certificates c e w o refl)
      | inr (t, o) ↦
          rw (w, o)
            (runs c (started (record { config = c; allow = allow }) logs (some t)) e refl
              (rw w refl) g refl)
    ]
  ]

  -- `main` goes in one of these ways: it ends, for the configuration file cannot be read, or a log
  -- file not opened, or certificates are wanted, since a directory, names and a token are
  -- configured, and cannot be obtained; or the application runs with the configuration of the file,
  -- with certificates exactly if they are wanted. Then, until the listener of the web server fails,
  -- it answers every request, each from an address with a port, however often the names are looked
  -- up again. It shows the metrics, the statistics and the tunnel only to an address in a network
  -- of an upstream of the file, or of an address to which a lookup has resolved one. And a request
  -- from an address in the network of an upstream that is a network reaches the tunnel, if its path
  -- is canonical, below /request/ and without an escaped form of its own.
  pub main-Booted :
      (es : List Event)
      → Known lookup
      → Fair Net parse_cidr inside clean Known es
      → Booted es (main Net Tls parse_cidr inside read lookup opens obtain path)
  unfolding main load_config
  main-Booted es known fair = elim (Option-cases (read path new_config)) [
    | inl e ↦ rw (e, main, load_config) (unreadable e refl)
    | inr (c, e) ↦ found c e
  ]
    where
      found :
          (c : AppConfig)
          → read path new_config ≡ some c
          → Booted es (main Net Tls parse_cidr inside read lookup opens obtain path)
      found c e =
          let (allow, ea, fits) =
            Returns-ok (make_ips Net parse_cidr inside lookup c.upstreams)
              (make_ips-Fits c.upstreams known) in
          elim (setup_logs-cases opens c.logs) [
            | inr f ↦ rw (e, main, load_config, ea, f) (no_log_file c e f refl)
            | inl (logs, f) ↦
                rw (e, main, load_config, ea, f)
                  (start-Booted es c allow logs e (
                    live-AllGuarded Net parse_cidr inside clean Known c.upstreams es c.redirect_url
                      allow fits fair))
          ]
