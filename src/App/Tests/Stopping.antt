-- ===== src/App/Tests/Stopping.antt =====
-- `Stop` while a handler asks.
use wsp.Base.{ℕ, ◌≡◌, refl, true, List, [], ◌∷◌, Every, Option, some, none}
use wsp.Runtime.{ok}
use wsp.App.Paths.{codes}
use wsp.App.Upstreams.{Text, contains, make_ips, parse_and_lookup, net_of, resolve}
use wsp.App.Upstreams.Callers.{LooksUp}
use wsp.App.Upstreams.Stopping.{
  awaiting, got, answering, panicked, closed, absent, waiting, stopped, Desk, Step, Reach, here,
  next,
}
use wsp.App.Upstreams.Stopping.Closed.{Fine, desk, desk-Fine}
use wsp.App.Upstreams.Stopping.Stolen.{stopping_panics}
use wsp.App.Tests.{parse_host, is_host, nothing_found, upstreams}

abbrev table : List (Text × Option ℕ)
table = (codes "10.0.0.1", some 1) ∷ (codes "proxy", none) ∷ []

made : make_ips ℕ parse_host is_host nothing_found upstreams ≡ ok table
unfolding make_ips parse_and_lookup net_of resolve
made = refl

-- The handler is let in while `Stop` waits.
abbrev let_in : Desk ℕ
let_in = record (desk 1 table) {
  callers = got (codes "10.0.0.1") true ∷ [];
  ask_ip = closed;
  stopper = waiting;
}

Reach-let_in :
    Reach parse_host is_host (LooksUp ℕ parse_host is_host (λ _. Unit {0})) (desk 1 table) let_in
unfolding contains
Reach-let_in =
    next
      (next
        (next (next here (Step.calls [] [] (codes "10.0.0.1") refl))
          (Step.takes [] [] (codes "10.0.0.1") refl refl refl))
        (Step.closes refl refl))
      (Step.answers [] [] (codes "10.0.0.1") (codes "10.0.0.1") refl refl refl)

desk-Fine_example : Every (Fine ℕ parse_host is_host (λ _. Unit {0}) upstreams) let_in.callers
desk-Fine_example =
    desk-Fine ℕ parse_host is_host (λ _. Unit {0}) upstreams nothing_found table 1 let_in tt made
      Reach-let_in

abbrev asked : Desk ℕ
asked = record (desk 1 table) {
  callers = awaiting (codes "10.0.0.1") ∷ [];
  owner = answering (codes "10.0.0.1");
}

stopping_panics_example :
    Reach parse_host is_host
      (LooksUp ℕ parse_host is_host (λ _. Unit {0}))
      asked
      (record asked { owner = panicked; ask_ip = absent; allow = absent; stopper = stopped })
stopping_panics_example =
    stopping_panics parse_host is_host (LooksUp ℕ parse_host is_host (λ _. Unit {0})) asked
      (codes "10.0.0.1") refl refl refl refl
