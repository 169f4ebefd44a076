-- ===== src/Server/Serving/Found.antt =====
-- What a dispatcher finds for a request on running pools.
use Prim.Native.String.{String}
use wsp.Base.{
  ℕ, zero, suc, ◌∙◌, ◌<◌, ◌≡◌, refl, ◌⊎◌, inl, inr, true, List, [], ◌∷◌, none, some, Option-cases,
  arith,
}
use wsp.Base.Maps.{at, AllAt, AllAt-at}
use wsp.Server.Pool.{Pool}
use wsp.Server.Pool.Channel.{idle_only}
use wsp.Server.Pool.Lifecycle.{IsRunning}
use wsp.Server.Dispatch.{Server, Dispatched, served, refused, waits, dispatch_request, get_pool}
use wsp.Server.Dispatch.Register.{AllRunning}
use wsp.Server.Dispatch.Request.{outcome, outcome_from, dispatch_request_lem}

-- Enough rounds for the dispatcher.
abbrev pub Enough : ℕ → Server → Type 0
Enough fuel s = (0 < fuel) × AllAt (λ p. p.idle_chan.cap < fuel) s.pools

-- What the dispatcher can find for a client.
pub data Found (id : String) (s : Server) (d : Dispatched) : Type 0 where
  nobody : at s.pools id ≡ none → d ≡ refused → Found id s d
  nothing_idle : (p : Pool) → at s.pools id ≡ some p → outcome p ≡ waits → d ≡ waits → Found id s d
  one :
      (p : Pool) (c : ℕ)
      → at s.pools id ≡ some p
      → outcome p ≡ served c
      → d ≡ served c
      → Found id s d

dispatch_missing :
    (fuel thread : ℕ) (id : String) (s : Server)
    → 0 < fuel
    → at s.pools id ≡ none
    → (dispatch_request fuel thread id s).0 ≡ refused
unfolding dispatch_request get_pool
dispatch_missing zero thread id s h missing = absurd (omega (arith, h))
dispatch_missing (suc fuel) thread id s h missing = rw (missing, dispatch_request) refl

outcome-cases :
    (l : List ℕ) → (outcome_from l true ≡ waits) ⊎ ((c : ℕ) × (outcome_from l true ≡ served c))
outcome-cases [] = inl refl
outcome-cases (c ∷ l) = inr (c, refl)

-- Nothing has changed in the table then.
pub dispatch_missing-pools :
    (fuel thread : ℕ) (id : String) (s : Server)
    → at s.pools id ≡ none
    → (dispatch_request fuel thread id s).1.pools ≡ s.pools
unfolding dispatch_request get_pool
dispatch_missing-pools zero thread id s missing = refl
dispatch_missing-pools (suc fuel) thread id s missing = rw (missing, dispatch_request) refl

pub dispatch_request-Found :
    (fuel thread : ℕ) (id : String) (s : Server)
    → AllRunning s
    → Enough fuel s
    → Found id s (dispatch_request fuel thread id s).0
dispatch_request-Found fuel thread id s all (some_fuel, enough) =
    elim (Option-cases (at s.pools id)) [
      | inl missing ↦ nobody missing (dispatch_missing fuel thread id s some_fuel missing)
      | inr (p, found) ↦
          let run = AllAt-at IsRunning s.pools id p all found in
          let long = AllAt-at (λ p. p.idle_chan.cap < fuel) s.pools id p enough found in
          let d =
            (dispatch_request_lem fuel thread id s p found (omega (arith, run.inv.fits, long))).0 in
          elim (outcome-cases (idle_only p.heap p.idle_chan.buffer)) [
            | inl e ↦
                let o : outcome p ≡ waits = rw run.chan_open e in nothing_idle p found o (d ∙ o)
            | inr (c, e) ↦
                let o : outcome p ≡ served c = rw run.chan_open e in one p c found o (d ∙ o)
          ]
    ]
