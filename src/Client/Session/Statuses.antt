-- ===== src/Client/Session/Statuses.antt =====
-- What `Status` of client/connection.go says of a connection.
use mathlib.Core.Path.{subst}
use wsp.Base.{sym, Bool, true, false}
use wsp.Client.Pool.{Status, connecting, idle, running}
use wsp.Client.Session.{
  Phase, starting, reading, found, handling, again, ending, Keeper, looping, replying, returned,
  Asker, elsewhere, asking, awaiting, told, Session, connected, Step, Reach, here, next,
}

-- An idle connection waits for a request, or has just got one; a running one has a request, or has
-- just answered it; and a connection that has broken keeps the status that it had.
abbrev pub Matches : Status → Phase → Type 0
Matches status ending = Unit
Matches connecting starting = Unit
Matches idle reading = Unit
Matches idle found = Unit
Matches running handling = Unit
Matches running again = Unit
Matches _ _ = ⊥

-- `keepAlive` answers exactly when the pool waits for it, and then the channels are open.
abbrev pub Pairs : Keeper → Asker → Bool → Type 0
Pairs replying awaiting true = Unit
Pairs looping elsewhere o = Unit
Pairs looping asking o = Unit
Pairs looping (told status serve) o = Unit
Pairs returned elsewhere o = Unit
Pairs returned asking o = Unit
Pairs returned (told status serve) o = Unit
Pairs _ _ _ = ⊥

-- What the pool has been told was so at that moment.
abbrev pub IsTrue : Asker → Type 0
IsTrue (told status serve) = Matches status serve
IsTrue _ = Unit

pub record IsInStep (s : Session) : Type 0 where
  pub matches : Matches s.status s.serve
  pub pairs : Pairs s.keeper s.asker s.is_open
  pub true_told : IsTrue s.asker

gets : (status : Status) → Matches status reading → Matches status found
gets connecting m = m
gets idle m = m
gets running m = m

answers : (status : Status) → Matches status handling → Matches status again
answers connecting m = m
answers idle m = m
answers running m = m

closing : (k : Keeper) → Pairs k elsewhere true → Pairs k elsewhere false
closing looping p = p
closing replying p = p
closing returned p = p

begins : (k : Keeper) (o : Bool) → Pairs k elsewhere o → Pairs k asking o
begins looping o p = p
begins replying o p = p
begins returned o p = p

parts :
    (k : Keeper) (o : Bool) (status : Status) (serve : Phase)
    → Pairs k (told status serve) o
    → Pairs k elsewhere o
parts looping o status serve p = p
parts replying o status serve p = p
parts returned o status serve p = p

stops : (a : Asker) (o : Bool) → Pairs looping a o → Pairs returned a o
stops elsewhere o p = p
stops asking o p = p
stops awaiting o p = p
stops (told status serve) o p = p

-- `serve` moves on, to a phase that fits the status.
moves :
    {s : Session} (p : Phase) (st : Status)
    → IsInStep s
    → Matches st p
    → IsInStep (record s { serve = p; status = st })
moves p st v m = record { matches = m; pairs = v.pairs; true_told = v.true_told }

-- `keepAlive` and the pool move on.
pair_up :
    {s : Session} (k : Keeper) (a : Asker) (o : Bool)
    → IsInStep s
    → Pairs k a o
    → IsTrue a
    → IsInStep (record s { keeper = k; asker = a; is_open = o })
pair_up k a o v p t = record { matches = v.matches; pairs = p; true_told = t }

Step-IsInStep : {s t : Session} → Step s t → IsInStep s → IsInStep t
Step-IsInStep (Step.sets_first e k o) v = moves reading idle v tt
Step-IsInStep (Step.sets_idle e k o) v = moves reading idle v tt
Step-IsInStep (Step.sets_running e k o) v = moves handling running v tt
Step-IsInStep {s} (Step.gets_request e) v =
    moves found s.status v (gets s.status (subst (Matches s.status) e v.matches))
Step-IsInStep {s} (Step.breaks e) v = moves ending s.status v tt
Step-IsInStep {s} (Step.serves e) v =
    moves again s.status v (answers s.status (subst (Matches s.status) e v.matches))
Step-IsInStep {s} (Step.fails e) v = moves ending s.status v tt
Step-IsInStep {s} (Step.recovers_first e o) v = moves ending s.status v tt
Step-IsInStep {s} (Step.recovers_idle e o) v = moves ending s.status v tt
Step-IsInStep {s} (Step.recovers_running e o) v = moves ending s.status v tt
Step-IsInStep {s} (Step.asks e o) v =
    pair_up s.keeper asking s.is_open v
      (begins s.keeper s.is_open (subst (λ a. Pairs s.keeper a s.is_open) e v.pairs)) tt
Step-IsInStep {s} (Step.meets e k o) v =
    pair_up replying awaiting s.is_open v (subst (Pairs replying awaiting) (sym o) tt) tt
Step-IsInStep {s} (Step.tells e k) v =
    pair_up looping (told s.status s.serve) s.is_open v tt v.matches
Step-IsInStep {s} (Step.leaves status serve e) v =
    pair_up s.keeper elsewhere s.is_open v
      (parts s.keeper s.is_open status serve (subst (λ a. Pairs s.keeper a s.is_open) e v.pairs)) tt
Step-IsInStep {s} (Step.ping_fails k) v =
    pair_up returned s.asker s.is_open v
      (stops s.asker s.is_open (subst (λ k. Pairs k s.asker s.is_open) k v.pairs)) v.true_told
Step-IsInStep {s} (Step.hears k o) v =
    pair_up returned s.asker s.is_open v
      (stops s.asker s.is_open (subst (λ k. Pairs k s.asker s.is_open) k v.pairs)) v.true_told
Step-IsInStep {s} (Step.closes e o) v =
    pair_up s.keeper s.asker false v
      (subst (λ a. Pairs s.keeper a false) (sym e)
        (closing s.keeper (
          subst (λ b. Pairs s.keeper elsewhere b) o
            (subst (λ a. Pairs s.keeper a s.is_open) e v.pairs))))
      v.true_told

Reach-IsInStep : {s t : Session} → IsInStep s → Reach s t → IsInStep t
Reach-IsInStep v here = v
Reach-IsInStep v (next r st) = Step-IsInStep st (Reach-IsInStep v r)

-- However the three goroutines of a new connection interleave: the status that the pool is told
-- fits what `serve` does at that moment, `keepAlive` answers exactly while the pool waits for it,
-- and then the channels are open, so that `keepAlive` never sends on a closed one.
pub Reach-connected-IsInStep : (t : Session) → Reach connected t → IsInStep t
Reach-connected-IsInStep t r =
    Reach-IsInStep (record { matches = tt; pairs = tt; true_told = tt }) r
