-- ===== src/Client/Pool/Removals/Crash.antt =====
-- When a connection that ends stops the client.
use mathlib.Core.Path.{subst}
use wsp.Base.{
  ◌≡◌, refl, sym, ◌∙◌, true, false, List, ◌∷◌, ◌++◌, Every, Every-at, Every-replace, Every-snoc,
}
use wsp.Client.Pool.Removals.{
  Serve, serving, removing, waiting, returned, crashed, selecting, finished, Removals, Step, Reach,
  here, next,
}

-- The goroutine is not in `Remove`, and has not crashed.
abbrev pub IsApart : Serve → Type 0
IsApart serving = Unit
IsApart returned = Unit
IsApart _ = ⊥

-- A pool that has been shut down, with no connection in `Remove`.
abbrev pub Settled : Removals → Type 0
Settled s = (s.is_shut ≡ true) × Every IsApart s.serves

-- A goroutine in `Remove`, where there can be none.
no_removal :
    {A : Type 0} (s : Removals) (xs : List Serve) (d : Serve) (ys : List Serve)
    → Settled s
    → s.serves ≡ xs ++ d ∷ ys
    → ¬ IsApart d
    → A
no_removal s xs d ys c at n = absurd (n (Every-at IsApart xs d ys (subst (Every IsApart) at c.1)))

Step-Settled : {s t : Removals} → Step s t → Settled s → Settled t
Step-Settled {s} (Step.fails xs ys at e) c = let f : false ≡ true = sym e ∙ c.0 in cc
Step-Settled {s} (Step.leaves xs ys at e) c =
    (c.0, Every-replace IsApart xs serving returned ys (subst (Every IsApart) at c.1) tt)
Step-Settled {s} (Step.takes xs ys at o) c = no_removal s xs removing ys c at (λ q. q)
Step-Settled {s} (Step.answers xs ys at o) c = no_removal s xs waiting ys c at (λ q. q)
Step-Settled {s} (Step.dials o) c = c
Step-Settled {s} (Step.opens o) c = (c.0, Every-snoc IsApart s.serves serving c.1 tt)
Step-Settled {s} (Step.rests o) c = c
Step-Settled {s} (Step.greeting_fails o e) c = let f : false ≡ true = sym e ∙ c.0 in cc
Step-Settled {s} (Step.greeting_left o e) c = c
Step-Settled {s} (Step.takes_itself o e) c = (c.0, c.1)
Step-Settled {s} (Step.answers_itself o e) c = c
Step-Settled {s} (Step.shuts e) c = (refl, c.1)
Step-Settled {s} (Step.finishes o e) c = c
Step-Settled {s} (Step.wakes xs ys at o) c = no_removal s xs waiting ys c at (λ q. q)
Step-Settled {s} (Step.crashes xs ys at o) c = no_removal s xs removing ys c at (λ q. q)

Reach-Settled : {s t : Removals} → Settled s → Reach s t → Settled t
Reach-Settled c here = c
Reach-Settled c (next r st) = Step-Settled st (Reach-Settled c r)

-- If no connection is in `Remove` when a pool is shut down, then no connection crashes after that,
-- however the goroutines interleave: each serves or has returned.
pub shuts-Settled :
    (s t : Removals)
    → s.is_shut ≡ false
    → Every IsApart s.serves
    → Reach (record s { is_shut = true }) t
    → Step s (record s { is_shut = true }) × Settled t
shuts-Settled s t fresh apart r = (Step.shuts fresh, Reach-Settled (refl, apart) r)

-- When a pool is shut down after a connection that fails has passed the test in `Remove`, and
-- before its message is taken, then the goroutine of the pool can finish first, and the connection
-- sends on a closed channel, which panics.
pub removing_crashes :
    (xs ys : List Serve) (s : Removals)
    → s.serves ≡ xs ++ serving ∷ ys
    → s.owner ≡ selecting
    → s.is_shut ≡ false
    → Reach s (record { serves = xs ++ crashed ∷ ys; owner = finished; is_shut = true })
removing_crashes xs ys s at o fresh =
    next
      (next (next (next here (Step.fails xs ys at fresh)) (Step.shuts fresh))
        (Step.finishes o refl))
      (Step.crashes xs ys refl refl)
