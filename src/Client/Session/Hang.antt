-- ===== src/Client/Session/Hang.antt =====
-- A ping that fails in `keepAlive` of client/connection.go.
use wsp.Base.{◌≡◌, refl, sym, ◌∙◌, true}
use wsp.Client.Session.{
  looping, replying, returned, elsewhere, asking, told, Session, Step, Reach, here, next,
}

-- The pool waits in `Status` for a goroutine that has returned.
abbrev pub IsStuck : Session → Type 0
IsStuck s = (s.keeper ≡ returned) × (s.asker ≡ asking) × (s.is_open ≡ true)

Step-IsStuck : {s t : Session} → Step s t → IsStuck s → IsStuck t
Step-IsStuck (Step.sets_first e k o) v = v
Step-IsStuck (Step.sets_idle e k o) v = v
Step-IsStuck (Step.sets_running e k o) v = v
Step-IsStuck (Step.gets_request e) v = v
Step-IsStuck (Step.breaks e) v = v
Step-IsStuck (Step.serves e) v = v
Step-IsStuck (Step.fails e) v = v
Step-IsStuck (Step.recovers_first e o) v = v
Step-IsStuck (Step.recovers_idle e o) v = v
Step-IsStuck (Step.recovers_running e o) v = v
Step-IsStuck (Step.asks e o) v = (v.0, refl, v.2)
Step-IsStuck (Step.meets e k o) v = let f : looping ≡ returned = sym k ∙ v.0 in cc
Step-IsStuck (Step.tells e k) v = let f : replying ≡ returned = sym k ∙ v.0 in cc
Step-IsStuck (Step.leaves status serve e) v = let f : told status serve ≡ asking = sym e ∙ v.1 in cc
Step-IsStuck (Step.ping_fails k) v = (refl, v.1, v.2)
Step-IsStuck (Step.hears k o) v = (refl, v.1, v.2)
Step-IsStuck (Step.closes e o) v = let f : elsewhere ≡ asking = sym e ∙ v.1 in cc

Reach-IsStuck : {s t : Session} → IsStuck s → Reach s t → IsStuck t
Reach-IsStuck v here = v
Reach-IsStuck v (next r st) = Step-IsStuck st (Reach-IsStuck v r)

-- When a ping fails on a connection of the pool, and the pool then asks for its status, the
-- goroutine of the pool waits in `Status` whatever follows, and neither `keepAlive` runs again nor
-- is the connection closed.
pub ping_fails-for_ever :
    (s t : Session)
    → s.keeper ≡ looping
    → s.asker ≡ elsewhere
    → s.is_open ≡ true
    → Reach (record s { keeper = returned; asker = asking }) t
    → Reach s (record s { keeper = returned; asker = asking }) × IsStuck t
ping_fails-for_ever s t k a o r =
    (next (next here (Step.ping_fails k)) (Step.asks a o), Reach-IsStuck (refl, refl, o) r)
