-- ===== src/App/Tests.antt =====
-- Runs of the table of upstreams, and labels of paths.
mod Callers
mod Logs
mod Requests
mod Starts
mod Stopping
use wsp.Base.{
  ℕ, ◌≤◌, ◌≡◌, refl, Bool, true, false, List, [], ◌∷◌, ◌++◌, Option, none, some, ◌==◌,
  if◌then◌else◌,
}
use wsp.Runtime.{ok, ◌>>=◌, Returns}
use wsp.App.Paths.{codes, same, label, label_of, split_n, api_label}
use wsp.App.Paths.Bounds.{slashes, label-bounded, triggers-kept}
use wsp.App.Upstreams.{
  Text, Lookup, make_ips, parse_and_lookup, contains, net_of, resolve, Message, ticks, asks, serve,
  host_of,
}
use wsp.App.Upstreams.Access.{Answered, make_ips-Answered}

later_version : label (codes "/api/radarr/3/get/a/b/c") ≡ codes "/api/radarr/1/get"
unfolding label label_of split_n api_label
later_version = refl

triggers_label :
    label (codes "/api/triggers/command/" ++ codes "7e1")
    ≡ codes "/api/triggers/command/" ++ codes "7e1"
triggers_label = triggers-kept (codes "7e1") refl

host_of_v6 : host_of (codes "[::1]:4040") ≡ ok (codes "::1")
unfolding host_of
host_of_v6 = refl

-- Two networks of one address.
abbrev pub parse_host : Text → Option ℕ
parse_host t =
    if same t (codes "10.0.0.1/32")
    then some 1
    else if same t (codes "10.0.0.9/32")
    then some 9
    else none

abbrev pub is_host : ℕ → Text → Bool
is_host n ip = if n == 1 then same ip (codes "10.0.0.1") else same ip (codes "10.0.0.9")

abbrev pub nothing_found : Lookup
nothing_found name = none

abbrev pub proxy_found : Lookup
proxy_found name = if same name (codes "proxy") then some (codes "10.0.0.9" ∷ []) else none

abbrev pub upstreams : List Text
upstreams = codes "10.0.0.1" ∷ codes "proxy" ∷ []

abbrev messages : List (Message ℕ parse_host is_host)
messages =
    asks (codes "10.0.0.9")
    ∷ ticks proxy_found
    ∷ asks (codes "10.0.0.9")
    ∷ ticks nothing_found
    ∷ asks (codes "10.0.0.9")
    ∷ asks (codes "10.0.0.1")
    ∷ []

-- The name is not known at the start, and keeps its network when it is lost again.
answers :
    Returns
      (make_ips ℕ parse_host is_host nothing_found upstreams
        >>= serve ℕ parse_host is_host messages)
      (λ r. r.1 ≡ false ∷ true ∷ true ∷ true ∷ [])
unfolding make_ips serve parse_and_lookup contains net_of resolve
answers = refl

make_ips-Answered_example :
    Returns
      (make_ips ℕ parse_host is_host nothing_found upstreams
        >>= serve ℕ parse_host is_host messages)
      (λ r. Answered ℕ parse_host is_host (λ _. Unit {0}) upstreams messages r.1)
make_ips-Answered_example =
    make_ips-Answered ℕ parse_host is_host (λ _. Unit {0}) nothing_found upstreams messages tt
      (tt, (tt, tt))
