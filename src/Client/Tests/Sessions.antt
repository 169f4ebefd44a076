-- ===== src/Client/Tests/Sessions.antt =====
-- A connection whose pool asks for its status while a request comes.
use wsp.Base.{refl, true}
use wsp.Client.Pool.{idle}
use wsp.Client.Session.{
  found, looping, returned, asking, told, Session, connected, Step, Reach, here, next,
}
use wsp.Client.Session.Hang.{IsStuck, ping_fails-for_ever}
use wsp.Client.Session.Statuses.{IsInStep, Reach-connected-IsInStep}

abbrev asked : Session
asked = record {
  serve = found;
  keeper = looping;
  asker = told idle found;
  status = idle;
  is_open = true;
}

Reach-asked : Reach connected asked
Reach-asked =
    next
      (next
        (next (next (next here (Step.asks refl refl)) (Step.sets_first refl refl refl))
          (Step.meets refl refl refl))
        (Step.gets_request refl))
      (Step.tells refl refl)

Reach-connected-IsInStep_example : IsInStep asked
Reach-connected-IsInStep_example = Reach-connected-IsInStep asked Reach-asked

-- The first ping fails, and the pool asks while `serve` has not begun.
ping_fails-for_ever_example :
    Reach connected (record connected { keeper = returned; asker = asking })
    × IsStuck (record connected { keeper = returned; asker = asking })
ping_fails-for_ever_example =
    ping_fails-for_ever connected (record connected { keeper = returned; asker = asking }) refl refl
      refl here
