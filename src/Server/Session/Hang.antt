-- ===== src/Server/Session/Hang.antt =====
-- What becomes of a request whose connection is closed while it waits for the response.
use wsp.Base.{ℕ, ◌≡◌, ◌≢◌, false, arith}
use wsp.Runtime.{ok}
use wsp.Server.Connection.{closed, Connection, close, take}
use wsp.Server.Session.Exclusion.{Inv, Reach-Inv, new_session-Inv}
use wsp.Server.Session.{
  Phase, handing, offering, awaiting, Session, new_session, Step, Reach, here, next,
}

-- The handler waits for a reader that does not know of its channel.
record IsStuck (ph : Phase) (k : ℕ) (s : Session) : Type 0 where
  waits : s.handler ≡ awaiting ph k
  unknown : s.reader ≢ handing k
  dead : s.conn.status ≡ closed

close_dead : (c d : Connection) → c.status ≡ closed → close c ≡ ok d → d ≡ c
unfolding close
close_dead c d e h = ground arith

take_dead :
    (c : Connection) → c.status ≡ closed → ((take c).1 ≡ false) × ((take c).0.status ≡ closed)
unfolding take
take_dead c e = ground arith

Step-IsStuck : (ph : Phase) (k : ℕ) {s t : Session} → Step s t → IsStuck ph k s → IsStuck ph k t
Step-IsStuck ph k (Step.reads r l) v = ground arith
Step-IsStuck ph k (Step.stops r l) v = ground arith
Step-IsStuck ph k (Step.hangs_up r) v = ground arith
Step-IsStuck ph k (Step.message r b) v = ground arith
Step-IsStuck ph k (Step.wild_message r b) v = ground arith
Step-IsStuck ph k (Step.unlocked r n) v = ground arith
Step-IsStuck ph k (Step.meets r h n) v = ground arith
Step-IsStuck ph k (Step.hands r h) v = ground arith
Step-IsStuck ph k (Step.breaks r h) v = ground arith
Step-IsStuck ph k (Step.resumes r h) v = ground arith
Step-IsStuck ph k {s} (Step.ends {c = c} r e) v = ground (arith, close_dead s.conn c v.dead e)
Step-IsStuck ph k {s} (Step.takes e) v = ground (arith, take_dead s.conn v.dead)
Step-IsStuck ph k {s} (Step.misses e) v = ground (arith, take_dead s.conn v.dead)
Step-IsStuck ph k (Step.sends h) v = ground arith
Step-IsStuck ph k (Step.answers h) v = ground arith
Step-IsStuck ph k (Step.fails_to_send h) v = ground arith
Step-IsStuck ph k (Step.fails_to_answer h) v = ground arith
Step-IsStuck ph k (Step.gives_up h) v = ground arith
Step-IsStuck ph k (Step.recovers h n) v = ground arith
Step-IsStuck ph k (Step.consumes h) v = ground arith
Step-IsStuck ph k (Step.fails_to_read h) v = ground arith
Step-IsStuck ph k (Step.gives now room h e) v = ground arith
Step-IsStuck ph k (Step.drops h e) v = ground arith
Step-IsStuck ph k {s} (Step.shuts {c = c} e) v = ground (arith, close_dead s.conn c v.dead e)

Reach-IsStuck : (ph : Phase) (k : ℕ) {s t : Session} → IsStuck ph k s → Reach s t → IsStuck ph k t
Reach-IsStuck ph k v here = v
Reach-IsStuck ph k v (next r st) = Step-IsStuck ph k st (Reach-IsStuck ph k v r)

-- The session after the send has panicked and `catchProxyPanic` has recovered.
abbrev pub recovered : Phase → ℕ → Session → Session
recovered ph k s = record s { handler = awaiting ph k }

-- Whenever a connection is closed while the handler of a request waits to hand its channel to the
-- reader, the send may panic on the closed channel; since the recovered call returns no error, the
-- handler then waits on a channel that nobody knows, and in every later session it waits still: the
-- requester gets no answer.
pub recovered_hangs :
    (now : ℕ) (s u : Session) (ph : Phase) (k : ℕ)
    → Reach (new_session now) s
    → s.handler ≡ offering ph k
    → s.conn.status ≡ closed
    → Reach (recovered ph k s) u
    → Step s (recovered ph k s) × (u.handler ≡ awaiting ph k)
recovered_hangs now s u ph k r h e later =
    (Step.recovers h (ground (arith, v.sound)), (Reach-IsStuck ph k stuck later).waits)
  where
    v : Inv s
    v = Reach-Inv (new_session-Inv now) r

    stuck : IsStuck ph k (recovered ph k s)
    stuck = ground (arith, v.fits)
