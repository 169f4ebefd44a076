-- ===== src/Server/Dispatch/Threads/Ending.antt =====
-- How `shutdown` of server/server.go ends the dispatchers.
use Prim.Native.String.{String}
use mathlib.Core.Path.{subst}
use wsp.Base.{
  ℕ, zero, suc, ◌+◌, ◌≡◌, refl, sym, ap, List, [], ◌∷◌, ◌++◌, Every, Every-at, Every-replace,
  length, arith,
}
use wsp.Server.Dispatch.Threads.{
  Dispatcher, resting, leaving, gone, crashed, asking, awaiting, fetching, Main, serving, stopped,
  replying, draining, State, Step, Reach, here, next, IsOpen,
}

-- The dispatcher has no request.
abbrev pub IsQuiet : Dispatcher → Type 0
IsQuiet resting = Unit
IsQuiet leaving = Unit
IsQuiet gone = Unit
IsQuiet _ = ⊥

abbrev pub is_left : Dispatcher → ℕ
is_left gone = 0
is_left _ = 1

-- The dispatchers that have not ended.
abbrev pub left : List Dispatcher → ℕ
left [] = 0
left (d ∷ ds) = is_left d + left ds

-- While `shutdown` waits, no dispatcher has a request, and it waits for as many as have not ended;
-- when it has closed the channels, all have ended.
abbrev pub Calm : Main → List Dispatcher → Type 0
Calm (draining n) ds = Every IsQuiet ds × (left ds ≡ n)
Calm stopped ds = Every (λ d. d ≡ gone) ds
Calm _ ds = ⊥

pub left-replace :
    (xs : List Dispatcher) (d e : Dispatcher) (ys : List Dispatcher)
    → left (xs ++ d ∷ ys) + is_left e ≡ left (xs ++ e ∷ ys) + is_left d
left-replace [] d e ys = omega arith
left-replace (x ∷ xs) d e ys = omega (arith, left-replace xs d e ys)

all_gone : (ds : List Dispatcher) → Every IsQuiet ds → left ds ≡ 0 → Every (λ d. d ≡ gone) ds
all_gone [] q e = tt
all_gone (gone ∷ ds) q e = (refl, all_gone ds q.1 (omega arith))
all_gone (resting ∷ ds) q e = absurd (omega arith)
all_gone (leaving ∷ ds) q e = absurd (omega arith)
all_gone (crashed ∷ ds) q e = absurd q.0
all_gone (asking k ∷ ds) q e = absurd q.0
all_gone (awaiting k ∷ ds) q e = absurd q.0
all_gone (fetching k j ∷ ds) q e = absurd q.0

-- A dispatcher in the middle of a calm list has ended, rests or leaves.
Calm-at :
    (m : Main) (xs : List Dispatcher) (d : Dispatcher) (ys : List Dispatcher)
    → Calm m (xs ++ d ∷ ys)
    → IsQuiet d
Calm-at (draining n) xs d ys c = Every-at IsQuiet xs d ys c.0
Calm-at stopped xs d ys c = subst IsQuiet (sym (Every-at (λ d. d ≡ gone) xs d ys c)) tt
Calm-at serving xs d ys c = absurd c
Calm-at (replying k) xs d ys c = absurd c

Calm-leaves :
    (m : Main) (xs ys : List Dispatcher) → Calm m (xs ++ resting ∷ ys) → Calm m (xs ++ leaving ∷ ys)
Calm-leaves (draining n) xs ys c = (
  Every-replace IsQuiet xs resting leaving ys c.0 tt,
  omega (arith, c.1, left-replace xs resting leaving ys),
)
Calm-leaves stopped xs ys c = absurd (subst Never (Every-at (λ d. d ≡ gone) xs resting ys c) tt)
  where
    Never : Dispatcher → Type 0
    Never gone = ⊥
    Never _ = Unit
Calm-leaves serving xs ys c = absurd c
Calm-leaves (replying k) xs ys c = absurd c

pub open_not_Calm : (m : Main) (ds : List Dispatcher) → IsOpen m → ¬ Calm m ds
open_not_Calm serving ds o c = c
open_not_Calm (replying k) ds o c = c
open_not_Calm (draining n) ds o c = o
open_not_Calm stopped ds o c = o

pub Calm-subst :
    {s : State} (m : Main) (ds : List Dispatcher)
    → Calm s.main s.dispatchers
    → s.dispatchers ≡ ds
    → s.main ≡ m
    → Calm m ds
Calm-subst {s} m ds c at e = subst (λ l. Calm m l) at (subst (λ n. Calm n s.dispatchers) e c)

-- A dispatcher that has a request, where there can be none.
pub no_request :
    {A : Type 0} (s : State) (xs : List Dispatcher) (d : Dispatcher) (ys : List Dispatcher)
    → Calm s.main s.dispatchers
    → s.dispatchers ≡ xs ++ d ∷ ys
    → ¬ IsQuiet d
    → A
no_request s xs d ys c at n = absurd (n (Calm-at s.main xs d ys (Calm-subst s.main _ c at refl)))

pub Step-Calm : {s t : State} → Step s t → Calm s.main s.dispatchers → Calm t.main t.dispatchers
Step-Calm {s} (Step.accepts xs ys k at o) c = absurd (open_not_Calm s.main s.dispatchers o c)
Step-Calm {s} (Step.asks xs ys k at m) c = no_request s xs (asking k) ys c at (λ q. q)
Step-Calm {s} (Step.replies xs ys k j at m) c = no_request s xs (awaiting k) ys c at (λ q. q)
Step-Calm {s} (Step.replies_nil xs ys k j at m) c = no_request s xs (awaiting k) ys c at (λ q. q)
Step-Calm {s} (Step.finds xs ys k j at) c = no_request s xs (fetching k j) ys c at (λ q. q)
Step-Calm {s} (Step.retries xs ys k j at) c = no_request s xs (fetching k j) ys c at (λ q. q)
Step-Calm {s} (Step.shuts_down m) c = absurd (Calm-subst serving s.dispatchers c refl m)
Step-Calm {s} (Step.leaves xs ys at e) c = Calm-leaves s.main xs ys (Calm-subst s.main _ c at refl)
Step-Calm (Step.counts xs ys n at m) c =
    let d = Calm-subst (draining (suc n)) (xs ++ leaving ∷ ys) c at m in
    (
      Every-replace IsQuiet xs leaving gone ys d.0 tt,
      omega (arith, d.1, left-replace xs leaving gone ys),
    )
Step-Calm {s} (Step.miscounts xs ys k n at m) c = no_request s xs (asking k) ys c at (λ q. q)
Step-Calm {s} (Step.stops m) c =
    let d = Calm-subst (draining zero) s.dispatchers c refl m in all_gone s.dispatchers d.0 d.1
Step-Calm {s} (Step.starves xs ys k at m) c = no_request s xs (awaiting k) ys c at (λ q. q)
Step-Calm (Step.crashes xs ys at m) c =
    let e : leaving ≡ gone =
      Every-at (λ d. d ≡ gone) xs leaving ys (Calm-subst stopped (xs ++ leaving ∷ ys) c at m) in
    cc
Step-Calm {s} (Step.crashes_asking xs ys k at m) c = no_request s xs (asking k) ys c at (λ q. q)

pub Reach-Calm : {s t : State} → Calm s.main s.dispatchers → Reach s t → Calm t.main t.dispatchers
Reach-Calm c here = c
Reach-Calm c (next r st) = Step-Calm st (Reach-Calm c r)

pub resting-Calm :
    (ds : List Dispatcher) → Every (λ d. d ≡ resting) ds → Calm (draining (length ds)) ds
resting-Calm [] e = (tt, refl)
resting-Calm (d ∷ ds) (e, es) =
    let r = resting-Calm ds es in
    ((subst IsQuiet (sym e) tt, r.0), omega (arith, r.1, ap is_left e))

-- If no dispatcher has a request when `shutdown` begins, then whatever follows no dispatcher sends
-- on a closed channel: while `shutdown` waits, it waits for as many dispatchers as have not ended,
-- and it closes the channels only when all have.
pub shuts_down-Calm :
    (s t : State)
    → s.main ≡ serving
    → Every (λ d. d ≡ resting) s.dispatchers
    → Reach (record s { main = draining (length s.dispatchers) }) t
    → Step s (record s { main = draining (length s.dispatchers) }) × Calm t.main t.dispatchers
shuts_down-Calm s t m quiet r = (Step.shuts_down m, Reach-Calm (resting-Calm s.dispatchers quiet) r)

-- When `shutdown` waits for one more message and a dispatcher asks for a pool at that moment, the
-- request can be taken for the end of the dispatcher: the channels are closed, the dispatcher gets
-- no pool, and when it ends it sends on the closed channel, which panics.
pub asking_crashes :
    (xs ys : List Dispatcher) (k : String) (s : State)
    → s.dispatchers ≡ xs ++ asking k ∷ ys
    → s.main ≡ draining 1
    → Reach s (record { dispatchers = xs ++ crashed ∷ ys; main = stopped })
asking_crashes xs ys k s at m =
    next
      (next
        (next (next (next here (Step.miscounts xs ys k 0 at m)) (Step.stops refl))
          (Step.starves xs ys k refl refl))
        (Step.leaves xs ys refl tt))
      (Step.crashes xs ys refl refl)
