-- ===== src/Server/Dispatch/Threads/Routing.antt =====
-- The answers on the shared channel `repPool` reach those who have asked.
use Prim.Native.String.{String}
use mathlib.Core.Path.{subst}
use wsp.Base.{
  ℕ, zero, suc, ◌≡◌, refl, ap, ◌∙◌, ◌≢◌, List, [], ◌∷◌, ◌++◌, Every, Every-replace, arith,
}
use wsp.Server.Dispatch.Threads.{
  Dispatcher, resting, leaving, gone, crashed, asking, awaiting, fetching, Main, serving, replying,
  draining, State, Step, Reach, here, next, all_resting, started,
}

-- The keys whose pools are awaited.
abbrev pub awaited : List Dispatcher → List String
awaited [] = []
awaited (awaiting k ∷ ds) = k ∷ awaited ds
awaited (_ ∷ ds) = awaited ds

-- While the main goroutine is in its `select` nobody waits for an answer, and when it answers only
-- the one who has asked.
abbrev pub Expects : Main → List String → Type 0
Expects serving ks = ks ≡ []
Expects (replying k) ks = ks ≡ k ∷ []
Expects _ ks = Unit

-- The dispatcher has got the pool that it has asked for.
abbrev pub HasOwn : Dispatcher → Type 0
HasOwn (fetching k j) = k ≡ j
HasOwn _ = Unit

pub record IsRouted (s : State) : Type 0 where
  pub expected : Expects s.main (awaited s.dispatchers)
  pub own : Every HasOwn s.dispatchers

-- Dispatchers that await nothing can stand for one another.
awaited-swap :
    (xs : List Dispatcher) (d e : Dispatcher) (ys : List Dispatcher)
    → awaited (d ∷ []) ≡ []
    → awaited (e ∷ []) ≡ []
    → awaited (xs ++ d ∷ ys) ≡ awaited (xs ++ e ∷ ys)
awaited-swap [] d e ys p q = ground arith
awaited-swap (x ∷ xs) d e ys p q = ground (arith, awaited-swap xs d e ys p q)

-- One more asks, while nobody waits.
awaited-ask :
    (xs ys : List Dispatcher) (k : String)
    → awaited (xs ++ asking k ∷ ys) ≡ []
    → awaited (xs ++ awaiting k ∷ ys) ≡ k ∷ []
awaited-ask [] ys k e = ap (λ l. k ∷ l) e
awaited-ask (x ∷ xs) ys k e = ground (arith, awaited-ask xs ys k)

awaited-ne-nil : (xs ys : List Dispatcher) (k : String) → awaited (xs ++ awaiting k ∷ ys) ≢ []
awaited-ne-nil [] ys k e = cc
awaited-ne-nil (x ∷ xs) ys k e = ground (arith, awaited-ne-nil xs ys k)

-- If one waits, it is the one that has asked.
awaited-reply :
    (xs ys : List Dispatcher) (k j : String) (d : Dispatcher)
    → awaited (xs ++ awaiting k ∷ ys) ≡ j ∷ []
    → awaited (d ∷ []) ≡ []
    → (k ≡ j) × (awaited (xs ++ d ∷ ys) ≡ [])
awaited-reply [] ys k j d e q = (cc, ground arith)
awaited-reply (x ∷ xs) ys k j d e q =
    ground (arith, awaited-reply xs ys k j d, awaited-ne-nil xs ys k)

-- A dispatcher changes that neither awaits an answer before nor after.
changes-IsRouted :
    (s : State) (xs ys : List Dispatcher) (d e : Dispatcher)
    → IsRouted s
    → s.dispatchers ≡ xs ++ d ∷ ys
    → awaited (d ∷ []) ≡ []
    → awaited (e ∷ []) ≡ []
    → HasOwn e
    → IsRouted (record s { dispatchers = xs ++ e ∷ ys })
changes-IsRouted s xs ys d e v at p q own = record {
  expected = subst (Expects s.main) (ap awaited at ∙ awaited-swap xs d e ys p q) v.expected;
  own = Every-replace HasOwn xs d e ys (subst (Every HasOwn) at v.own) own;
}

expected_at :
    {s : State} (m : Main) (ds : List Dispatcher)
    → IsRouted s
    → s.dispatchers ≡ ds
    → s.main ≡ m
    → Expects m (awaited ds)
expected_at {s} m ds v at e =
    subst (λ l. Expects m (awaited l)) at
      (subst (λ n. Expects n (awaited s.dispatchers)) e v.expected)

-- One dispatcher moves on and the main goroutine expects what fits.
moves-IsRouted :
    {s : State} (xs ys : List Dispatcher) (d e : Dispatcher) (m : Main)
    → IsRouted s
    → s.dispatchers ≡ xs ++ d ∷ ys
    → HasOwn e
    → Expects m (awaited (xs ++ e ∷ ys))
    → IsRouted (record { dispatchers = xs ++ e ∷ ys; main = m })
moves-IsRouted xs ys d e m v at own x = record {
  expected = x;
  own = Every-replace HasOwn xs d e ys (subst (Every HasOwn) at v.own) own;
}

Step-IsRouted : {s t : State} → Step s t → IsRouted s → IsRouted t
Step-IsRouted {s} (Step.accepts xs ys k at o) v =
    changes-IsRouted s xs ys resting (asking k) v at refl refl tt
Step-IsRouted (Step.asks xs ys k at m) v =
    moves-IsRouted xs ys (asking k) (awaiting k) (replying k) v at tt
      (awaited-ask xs ys k (expected_at serving _ v at m))
Step-IsRouted (Step.replies xs ys k j at m) v =
    let r = awaited-reply xs ys k j (fetching k j) (expected_at (replying j) _ v at m) refl in
    moves-IsRouted xs ys (awaiting k) (fetching k j) serving v at r.0 r.1
Step-IsRouted (Step.replies_nil xs ys k j at m) v =
    moves-IsRouted xs ys (awaiting k) resting serving v at tt
      (awaited-reply xs ys k j resting (expected_at (replying j) _ v at m) refl).1
Step-IsRouted {s} (Step.finds xs ys k j at) v =
    changes-IsRouted s xs ys (fetching k j) resting v at refl refl tt
Step-IsRouted {s} (Step.retries xs ys k j at) v =
    changes-IsRouted s xs ys (fetching k j) (asking k) v at refl refl tt
Step-IsRouted (Step.shuts_down m) v = record { expected = tt; own = v.own }
Step-IsRouted {s} (Step.leaves xs ys at e) v =
    changes-IsRouted s xs ys resting leaving v at refl refl tt
Step-IsRouted (Step.counts xs ys n at m) v =
    moves-IsRouted xs ys leaving gone (draining n) v at tt tt
Step-IsRouted (Step.miscounts xs ys k n at m) v =
    moves-IsRouted xs ys (asking k) (awaiting k) (draining n) v at tt tt
Step-IsRouted (Step.stops m) v = record { expected = tt; own = v.own }
Step-IsRouted {s} (Step.starves xs ys k at m) v =
    moves-IsRouted xs ys (awaiting k) resting s.main v at tt (rw m tt)
Step-IsRouted {s} (Step.crashes xs ys at m) v =
    changes-IsRouted s xs ys leaving crashed v at refl refl tt
Step-IsRouted {s} (Step.crashes_asking xs ys k at m) v =
    changes-IsRouted s xs ys (asking k) crashed v at refl refl tt

Reach-IsRouted : {s t : State} → IsRouted s → Reach s t → IsRouted t
Reach-IsRouted v here = v
Reach-IsRouted v (next r st) = Step-IsRouted st (Reach-IsRouted v r)

awaited-all_resting : (n : ℕ) → awaited (all_resting n) ≡ []
awaited-all_resting zero = refl
awaited-all_resting (suc n) = awaited-all_resting n

all_resting-HasOwn : (n : ℕ) → Every HasOwn (all_resting n)
all_resting-HasOwn zero = tt
all_resting-HasOwn (suc n) = (tt, all_resting-HasOwn n)

-- However many dispatchers share the channel, and however they interleave with one another and with
-- the main goroutine: each gets the pool of the very client that it has asked for, nobody waits for
-- an answer while the main goroutine is in its `select`, and when it answers for a key, one
-- dispatcher waits, and for that key.
pub Reach-started-IsRouted : (n : ℕ) (s : State) → Reach (started n) s → IsRouted s
Reach-started-IsRouted n s r =
    Reach-IsRouted (record { expected = awaited-all_resting n; own = all_resting-HasOwn n }) r
