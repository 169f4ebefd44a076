-- ===== src/App/Tests/Logs.antt =====
-- Where the log lines go, and formats of the access log.
use wsp.Base.{◌≡◌, refl, true, false, [], ◌∷◌}
use wsp.Base.Int.{pos}
use wsp.Runtime.{ok, panics, by_the_code}
use wsp.App.Paths.{codes}
use wsp.App.Logs.{rotated, stdout, stderr, LogConfig, setup_logs, apache_log_format, other_fields}

abbrev one_file : LogConfig
one_file = record {
  log_file = codes "app.log";
  log_files = pos 5;
  log_file_mb = pos 10;
  http_log = codes "http.log";
  http_logs = pos 5;
  http_log_mb = pos 0;
}

-- An access log of no size goes to the file of the application, or to the standard output.
one_file_sinks :
    setup_logs (λ p. true) one_file
    ≡ ok (record {
      app = rotated (codes "app.log") (pos 10) (pos 5);
      http = rotated (codes "app.log") (pos 10) (pos 5);
      errors = rotated (codes "app.log") (pos 10) (pos 5);
    })
unfolding setup_logs
one_file_sinks = refl

no_file_sinks :
    setup_logs (λ p. false) (record one_file { log_file = [] })
    ≡ ok (record { app = stderr; http = stdout; errors = stderr })
unfolding setup_logs
no_file_sinks = refl

unopened : setup_logs (λ p. false) one_file ≡ panics by_the_code
unfolding setup_logs
unopened = refl

header_format :
    apache_log_format
      (codes "X-Id")
      ((codes "uid", codes "X-Uid") ∷ (codes "env", codes "X-Env") ∷ [])
    ≡ codes
        "%h %{X-Uid}i - %t \"%r\" %>s %b \"%{X-Id}i\" \"%{User-agent}i\" - %{ms}Tms \"env:%{X-Env}i\""
unfolding apache_log_format other_fields
header_format = refl
