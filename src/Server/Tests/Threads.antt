-- ===== src/Server/Tests/Threads.antt =====
-- Runs of two dispatchers and the main goroutine.
use wsp.Base.{◌≡◌, ◌+◌, ◌*◌, Every, refl, [], ◌∷◌}
use wsp.Server.Dispatch.Threads.{
  resting, crashed, asking, fetching, gone, serving, stopped, draining, State, Step, Reach, here,
  next, started,
}
use wsp.Server.Dispatch.Threads.Routing.{IsRouted, Reach-started-IsRouted}
use wsp.Server.Dispatch.Threads.Ending.{Calm, shuts_down-Calm, asking_crashes}
use wsp.Server.Dispatch.Threads.Termination.{steps, shuts_down-ends}

abbrev routed : State
routed = record { dispatchers = resting ∷ fetching "a" "a" ∷ []; main = serving }

Reach-routed : Reach (started 2) routed
Reach-routed =
    next
      (next (next here (Step.accepts (resting ∷ []) [] "a" refl tt))
        (Step.asks (resting ∷ []) [] "a" refl refl))
      (Step.replies (resting ∷ []) [] "a" "a" refl refl)

Reach-started-IsRouted_example : IsRouted routed
Reach-started-IsRouted_example = Reach-started-IsRouted 2 routed Reach-routed

-- The second dispatcher has ended, and the first still rests.
abbrev ending : State
ending = record { dispatchers = resting ∷ gone ∷ []; main = draining 1 }

Reach-ending : Reach (record { dispatchers = resting ∷ resting ∷ []; main = draining 2 }) ending
Reach-ending =
    next (next here (Step.leaves (resting ∷ []) [] refl tt))
      (Step.counts (resting ∷ []) [] 1 refl refl)

shuts_down-Calm_example :
    Step (started 2) (record { dispatchers = resting ∷ resting ∷ []; main = draining 2 })
    × Calm ending.main ending.dispatchers
shuts_down-Calm_example = shuts_down-Calm (started 2) ending refl (refl, (refl, tt)) Reach-ending

asking_crashes_example :
    Reach
      (record { dispatchers = gone ∷ asking "a" ∷ []; main = draining 1 })
      (record { dispatchers = gone ∷ crashed ∷ []; main = stopped })
asking_crashes_example =
    asking_crashes (gone ∷ []) [] "a"
      (record { dispatchers = gone ∷ asking "a" ∷ []; main = draining 1 }) refl refl

shuts_down-ends_example :
    (u : State) × (q : Reach ending u) × (u.main ≡ stopped)
    × Every (λ d. d ≡ gone) u.dispatchers
    × (steps Reach-ending + steps q ≡ 2 * 2 + 1)
shuts_down-ends_example = shuts_down-ends (started 2) ending refl (refl, (refl, tt)) Reach-ending
