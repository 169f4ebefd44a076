-- ===== src/Server/Tests/Sessions.antt =====
-- A run of a connection whose pool is shut down during a request.
use wsp.Base.{◌≡◌, refl, false}
use wsp.Server.Connection.{closed, close, take}
use wsp.Server.Session.{
  head, reading, leaving, offering, awaiting, Session, new_session, Step, Reach, here, next,
}
use wsp.Server.Session.Exclusion.{IsExclusive, Reach-IsExclusive}
use wsp.Server.Session.Hang.{recovered, recovered_hangs}

-- The request has been sent, and the connection is closed before the response comes.
abbrev lost : Session
lost = record {
  conn = record {
    connected = 5;
    status = closed;
    idle_since = 5;
    requests = 1;
    next_response = false;
    sock = false;
  };
  reader = reading;
  handler = offering head 0;
  made = 1;
}

Reach-lost : Reach (new_session 5) lost
unfolding take close
Reach-lost =
    next (next (next (next here (Step.reads refl (λ e. cc))) (Step.takes refl)) (Step.sends refl))
      (Step.shuts refl)

Reach-IsExclusive_example : IsExclusive lost
Reach-IsExclusive_example = Reach-IsExclusive 5 lost Reach-lost

-- The reader hears of the closed socket while the handler hangs.
abbrev hanging : Session
hanging = record lost { reader = leaving; handler = awaiting head 0 }

recovered_hangs_example : Step lost (recovered head 0 lost) × (hanging.handler ≡ awaiting head 0)
recovered_hangs_example =
    recovered_hangs 5 lost hanging head 0 Reach-lost refl refl (next here (Step.hangs_up refl))
