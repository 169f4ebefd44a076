-- ===== src/Client/Tests/Removals.antt =====
-- A pool with two connections that is shut down.
use wsp.Base.{refl, [], ◌∷◌, false, true}
use wsp.Client.Pool.Removals.{
  serving, removing, removing_itself, returned, crashed, selecting, finished, Removals, Step, Reach,
  here, next,
}
use wsp.Client.Pool.Removals.Greeting.{IsStuck, greeting_hangs}
use wsp.Client.Pool.Removals.Crash.{Settled, shuts-Settled, removing_crashes}

abbrev up : Removals
up = record { serves = serving ∷ serving ∷ []; owner = selecting; is_shut = false }

abbrev down : Removals
down = record { serves = returned ∷ serving ∷ []; owner = finished; is_shut = true }

Reach-down : Reach (record up { is_shut = true }) down
Reach-down = next (next here (Step.leaves [] (serving ∷ []) refl refl)) (Step.finishes refl refl)

shuts-Settled_example : Step up (record up { is_shut = true }) × Settled down
shuts-Settled_example = shuts-Settled up down refl (tt, (tt, tt)) Reach-down

removing_crashes_example :
    Reach up (record { serves = serving ∷ crashed ∷ []; owner = finished; is_shut = true })
removing_crashes_example = removing_crashes (serving ∷ []) [] up refl refl refl

greeting_hangs_example :
    Reach up (record up { owner = removing_itself })
    × IsStuck (record { serves = removing ∷ serving ∷ []; owner = removing_itself; is_shut = true })
greeting_hangs_example =
    greeting_hangs up
      (record { serves = removing ∷ serving ∷ []; owner = removing_itself; is_shut = true }) refl
      refl (next (next here (Step.fails [] (serving ∷ []) refl refl)) (Step.shuts refl))
