-- ===== src/App/Start/Print.antt =====
-- `PrintConfig` and the loggers of the application in logging.go, with `show` for the text of a
-- network and `digits` for that of a number.
use wsp.Base.{◌≡◌, refl, Bool, true, false, not, List, [], ◌∷◌, ◌++◌, map}
use wsp.Base.Int.{ℤ, pos}
use wsp.App.Paths.{codes}
use wsp.App.Upstreams.{Text}
use wsp.App.Upstreams.Print.{to_string}
use wsp.App.Logs.{is_blank, apache_log_format}
use wsp.App.Start.{Loaded}

-- What `Debugf`, `Printf` and `Errorf` hand to the logger, given the text of the line.
abbrev debugf : Text → Text
debugf text = codes "[DEBUG] " ++ text

abbrev printf : Text → Text
printf text = codes "[INFO] " ++ text

abbrev errorf : Text → Text
errorf text = codes "[ERROR] " ++ text

abbrev show_bool : Bool → Text
show_bool true = codes "true"
show_bool false = codes "false"

-- `strings.Join(l, ", ")`
abbrev names_behind : List Text → Text
names_behind [] = []
names_behind (t ∷ l) = codes ", " ++ t ++ names_behind l

abbrev join_names : List Text → Text
join_names [] = []
join_names (t ∷ l) = t ++ names_behind l

module _ {Net : Type 0} (show : Net → Text) (digits : ℤ → Text) where
  abbrev file_line : Text → ℤ → ℤ → Text
  file_line file count megabytes =
      file
      ++ codes " (count: "
      ++ digits count
      ++ codes ", size: "
      ++ digits megabytes
      ++ codes "MB)"

  -- `PrintConfig`: the lines in their order.
  unfoldable print_config : ℤ → Loaded Net → List Text
  print_config pid l =
      let c = l.config in
      map printf (
        (codes "=> Mulery Starting, pid: " ++ digits pid)
        ∷ (codes "=> Listen Address: " ++ c.listen_addr)
        ∷ (codes "=> Dispatch Threads: " ++ digits (pos c.dispatchers))
        ∷ (codes "=> Auth URL/Header: " ++ c.auth_url ++ codes " / " ++ c.auth_header)
        ∷ (codes "=> Allowed Requesters: " ++ to_string show l.allow)
        ∷ (codes "=> CacheDir: " ++ c.cache_dir)
        ∷ (codes "=> Email / Token: "
            ++ c.email
            ++ codes " / "
            ++ show_bool (not (is_blank c.cf_token)))
        ∷ (codes "=> SSL Names: " ++ join_names c.ssl_names)
        ∷ (codes "=> Log File: " ++ file_line c.logs.log_file c.logs.log_files c.logs.log_file_mb)
        ∷ (codes "=> HTTP Log: " ++ file_line c.logs.http_log c.logs.http_logs c.logs.http_log_mb)
        ∷ (codes "=> Log Format: " ++ apache_log_format c.id_header c.log_headers)
        ∷ [])

  -- The lines tell of the token only whether there is one, and nothing of the secret key.
  print_config-secrets :
      (pid : ℤ) (l : Loaded Net) (token key : Text)
      → is_blank token ≡ is_blank l.config.cf_token
      → print_config pid
          (record l { config = record l.config { cf_token = token; secret_key = key } })
        ≡ print_config pid l
  unfolding print_config
  print_config-secrets pid l token key e = rw e refl
