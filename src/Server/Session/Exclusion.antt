-- ===== src/Server/Session/Exclusion.antt =====
-- What the two goroutines of a connection never do together.
use wsp.Base.{ℕ, ◌<◌, ◌≡◌, refl, ◌≢◌, ◌↔◌, inr, Bool, true, arith}
use wsp.Runtime.{ok}
use wsp.Server.Connection.{
  idle, closed, Connection, close, take, IsSound, shut, close-eq-shut, take-IsSound,
}
use wsp.Server.Session.{
  Phase, head, body, Reader, reading, handing, handed, Handler, absent, clash, offering, awaiting,
  consuming, Session, new_session, Holds, give_back, Step, Reach, here, next,
}

-- What the place of the handler says of the reader.
abbrev pub Fits : Handler → Reader → ℕ → Type 0
Fits (offering ph k) r made = (k < made) × (r ≢ handing k) × (r ≢ handed k)
Fits (awaiting ph k) r made = (k < made) × (r ≢ handed k)
Fits (consuming ph k) r made = (k < made) × (r ≡ handed k)
Fits _ r made = Unit

-- What the place of the reader says of the handler.
abbrev pub Meets : Reader → Handler → ℕ → Type 0
Meets (handing k) h made = (ph : Phase) × (h ≡ awaiting ph k)
Meets (handed k) h made = k < made
Meets _ h made = Unit

pub record Inv (s : Session) : Type 0 where
  pub sound : IsSound s.conn
  pub alone : s.conn.status ≡ idle → s.handler ≡ absent
  pub one_handler : s.handler ≢ clash
  pub fits : Fits s.handler s.reader s.made
  pub meets : Meets s.reader s.handler s.made

close-shut : (c d : Connection) → IsSound c → close c ≡ ok d → d ≡ shut c
close-shut c d s e = ground (arith, close-eq-shut c s)

take_cases :
    (c : Connection)
    → IsSound c
    → IsSound (take c).0
      × ((take c).0.status ≢ idle)
      × ((take c).1 ≡ true → c.status ≡ idle)
      × (((take c).0.status ≡ closed) ↔ (c.status ≡ closed))
unfolding take
take_cases c s = (take-IsSound c s, ground arith, ground arith, (ground arith, ground arith))

-- A connection that is given back is sound.
give_back-IsSound :
    (now : ℕ) (room : Bool) (c d : Connection) → IsSound c → give_back now room c ≡ ok d → IsSound d
unfolding give_back close
give_back-IsSound now room c d s e = ground arith

Step-Inv : {s t : Session} → Step s t → Inv s → Inv t
Step-Inv (Step.reads r l) v = ground arith
Step-Inv (Step.stops r l) v = ground arith
Step-Inv (Step.hangs_up r) v = ground arith
Step-Inv (Step.message r b) v = ground arith
Step-Inv (Step.wild_message r b) v = ground arith
Step-Inv (Step.unlocked r n) v = ground arith
Step-Inv (Step.meets r h n) v = ground arith
Step-Inv (Step.hands r h) v = ground arith
Step-Inv (Step.breaks r h) v = ground arith
Step-Inv (Step.resumes r h) v = ground arith
Step-Inv {s} (Step.ends {c = c} r e) v = ground (arith, close-shut s.conn c v.sound e)
Step-Inv {s} (Step.takes e) v = ground (arith, take_cases s.conn v.sound)
Step-Inv {s} (Step.misses e) v = ground (arith, take_cases s.conn v.sound)
Step-Inv (Step.sends h) v = ground arith
Step-Inv (Step.answers h) v = ground arith
Step-Inv (Step.fails_to_send h) v = ground arith
Step-Inv (Step.fails_to_answer h) v = ground arith
Step-Inv (Step.gives_up h) v = ground arith
Step-Inv (Step.recovers h n) v = ground arith
Step-Inv (Step.consumes {ph = head} h) v = ground arith
Step-Inv (Step.consumes {ph = body} h) v = ground arith
Step-Inv (Step.fails_to_read h) v = ground arith
Step-Inv {s} (Step.gives {c = c} now room h e) v =
    ground (arith, give_back-IsSound now room s.conn c v.sound e)
Step-Inv {s} (Step.drops {c = c} h e) v = ground (arith, close-shut s.conn c v.sound e)
Step-Inv {s} (Step.shuts {c = c} e) v = ground (arith, close-shut s.conn c v.sound e)

pub new_session-Inv : (now : ℕ) → Inv (new_session now)
new_session-Inv now = record {
  sound = inr (λ e. cc, refl, refl);
  alone = λ _. refl;
  one_handler = cc;
  fits = tt;
  meets = tt;
}

pub Reach-Inv : {s t : Session} → Inv s → Reach s t → Inv t
Reach-Inv v here = v
Reach-Inv v (next r st) = Step-Inv st (Reach-Inv v r)

-- What the two goroutines never do together.
pub record IsExclusive (s : Session) : Type 0 where
  pub one_reads : (ph : Phase) (k : ℕ) → s.reader ≡ reading → s.handler ≢ consuming ph k
  pub one_handler : s.handler ≢ clash
  pub unused : s.conn.status ≡ idle → s.handler ≡ absent
  pub answered : (k : ℕ) → s.reader ≡ handing k → Holds k s.handler
  pub closes_once : IsSound s.conn

Inv-IsExclusive : (s : Session) → Inv s → IsExclusive s
Inv-IsExclusive s v = record {
  one_reads = λ ph k r h. ground arith;
  one_handler = v.one_handler;
  unused = v.alone;
  answered = λ k r. ground arith;
  closes_once = v.sound;
}

-- However the two goroutines of a new connection, the peer, the requester and the pool interleave:
-- only one of the two reads the socket at a time; the connection never serves two requests, and
-- one that can be taken serves none; the reader never sends on a response channel that its handler
-- has closed; and `nextResponse` and the socket are closed exactly when the status says so.
pub Reach-IsExclusive : (now : ℕ) (s : Session) → Reach (new_session now) s → IsExclusive s
Reach-IsExclusive now s r = Inv-IsExclusive s (Reach-Inv (new_session-Inv now) r)
