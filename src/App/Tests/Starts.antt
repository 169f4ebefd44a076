-- ===== src/App/Tests/Starts.antt =====
-- The application from its configuration file on.
use wsp.Base.{ℕ, refl, true, false, List, [], ◌∷◌, Option, none, some}
use wsp.App.Paths.{codes}
use wsp.App.Upstreams.{Text, host_of}
use wsp.App.Routes.{Request}
use wsp.App.Start.{AppConfig, Event, refreshes, arrives, listener_fails, main}
use wsp.App.Start.Booted.{Booted, main-Booted}
use wsp.App.Tests.{parse_host, is_host, nothing_found, proxy_found, upstreams}

-- A file that names upstreams.
abbrev read_file : Text → AppConfig → Option AppConfig
read_file path c = some (record c { upstreams = upstreams })

abbrev ask_stats : Request
ask_stats = record {
  is_connect = false;
  path = codes "/stats";
  raw_path = [];
  remote_addr = codes "10.0.0.9:1234";
}

abbrev day : List Event
day = arrives ask_stats ∷ refreshes proxy_found ∷ arrives ask_stats ∷ listener_fails ∷ []

main-Booted_example :
    Booted ℕ ℕ parse_host is_host
      (λ p. p)
      (λ _. Unit {0})
      read_file
      nothing_found
      (λ p. true)
      (λ names. none)
      (codes "mulery.conf")
      day
      (main ℕ ℕ parse_host is_host read_file nothing_found
        (λ p. true)
        (λ names. none)
        (codes "mulery.conf"))
unfolding host_of
main-Booted_example =
    main-Booted ℕ ℕ parse_host is_host (λ p. p) (λ _. Unit {0}) read_file nothing_found (λ p. true)
      (λ names. none) (codes "mulery.conf") day tt
      ((codes "10.0.0.9", refl), (tt, ((codes "10.0.0.9", refl), tt)))
