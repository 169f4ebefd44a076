-- ===== src/App/Tests/Callers.antt =====
-- Two handlers that ask about their addresses.
use wsp.Base.{ℕ, refl, Bool, true, List, [], ◌∷◌, none, some, Every}
use wsp.Rendezvous.{resting, asking, got, selecting, Calls, Step, Reach, here, next, started}
use wsp.App.Paths.{codes}
use wsp.App.Upstreams.{Text, Entry, make_ips, parse_and_lookup, net_of, resolve, contains}
use wsp.App.Upstreams.Callers.{LooksUp, IsRight, callers-IsRight}
use wsp.App.Tests.{upstreams, parse_host, is_host, nothing_found}

abbrev Table : Type 0
Table = List (Entry ℕ parse_host is_host)

abbrev table : Table
table = (codes "10.0.0.1", some 1) ∷ (codes "proxy", none) ∷ []

-- The first has been let in, and the second still asks.
abbrev asked : Calls Table Text Bool
asked = record {
  callers = got table (codes "10.0.0.1") true ∷ asking (codes "10.0.0.9") ∷ [];
  owner = selecting;
  state = table;
}

Reach-asked :
    Reach
      (contains ℕ parse_host is_host)
      (LooksUp ℕ parse_host is_host (λ _. Unit {0}))
      (started 2 table)
      asked
unfolding contains
Reach-asked =
    next
      (next
        (next (next here (Step.comes [] (resting ∷ []) (codes "10.0.0.1") refl))
          (Step.comes (asking (codes "10.0.0.1") ∷ []) [] (codes "10.0.0.9") refl))
        (Step.meets [] (asking (codes "10.0.0.9") ∷ []) (codes "10.0.0.1") refl refl))
      (Step.replies [] (asking (codes "10.0.0.9") ∷ []) (codes "10.0.0.1") true refl refl)

callers-IsRight_example :
    Every (IsRight ℕ parse_host is_host (λ _. Unit {0}) upstreams) asked.callers
unfolding make_ips parse_and_lookup net_of resolve
callers-IsRight_example =
    callers-IsRight ℕ parse_host is_host (λ _. Unit {0}) nothing_found upstreams table 2 asked tt
      refl Reach-asked
