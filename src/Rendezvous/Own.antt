-- ===== src/Rendezvous/Own.antt =====
-- Each caller gets the answer to its own question.
use mathlib.Core.Path.{subst}
use wsp.Base.{
  ℕ, zero, suc, ◌≡◌, refl, sym, ap, ◌∙◌, ◌≢◌, List, [], ◌∷◌, ◌++◌, Every, Every-replace, arith,
}
use wsp.Rendezvous.{
  Caller, resting, asking, awaiting, got, Owner, selecting, answering, Calls, Step, Reach, here,
  next, all_resting, started,
}

module _ {St Q A : Type 0} where
  -- The questions whose answers are awaited.
  abbrev pub awaited : List (Caller St Q A) → List Q
  awaited [] = []
  awaited (awaiting q ∷ cs) = q ∷ awaited cs
  awaited (_ ∷ cs) = awaited cs

  awaited-swap :
      (xs : List (Caller St Q A)) (c d : Caller St Q A) (ys : List (Caller St Q A))
      → awaited (c ∷ []) ≡ []
      → awaited (d ∷ []) ≡ []
      → awaited (xs ++ c ∷ ys) ≡ awaited (xs ++ d ∷ ys)
  awaited-swap [] c d ys p q = ground arith
  awaited-swap (x ∷ xs) c d ys p q = ground (arith, awaited-swap xs c d ys p q)

  awaited-ask :
      (xs ys : List (Caller St Q A)) (q : Q)
      → awaited (xs ++ asking q ∷ ys) ≡ []
      → awaited (xs ++ awaiting q ∷ ys) ≡ q ∷ []
  awaited-ask [] ys q e = ap (λ l. q ∷ l) e
  awaited-ask (x ∷ xs) ys q e = ground (arith, awaited-ask xs ys q)

  awaited-ne-nil : (xs ys : List (Caller St Q A)) (q : Q) → awaited (xs ++ awaiting q ∷ ys) ≢ []
  awaited-ne-nil [] ys q e = cc
  awaited-ne-nil (x ∷ xs) ys q e = ground (arith, awaited-ne-nil xs ys q)

  awaited-reply :
      (xs ys : List (Caller St Q A)) (q r : Q) (d : Caller St Q A)
      → awaited (xs ++ awaiting q ∷ ys) ≡ r ∷ []
      → awaited (d ∷ []) ≡ []
      → (q ≡ r) × (awaited (xs ++ d ∷ ys) ≡ [])
  awaited-reply [] ys q r d e n = (cc, ground arith)
  awaited-reply (x ∷ xs) ys q r d e n =
      ground (arith, awaited-reply xs ys q r d, awaited-ne-nil xs ys q)

module _ {St Q A : Type 0} (answer : St → Q → A) (Changes : St → St → Type 0)
    (Good : St → Type 0) where
  -- An answer is the one to the caller's own question, in a state that is good.
  abbrev pub HasOwn : Caller St Q A → Type 0
  HasOwn (got st q a) = Good st × (a ≡ answer st q)
  HasOwn _ = Unit

  abbrev pub Expects : Owner A → St → List Q → Type 0
  Expects selecting st qs = qs ≡ []
  Expects (answering a) st qs = (q : Q) × (qs ≡ q ∷ []) × (a ≡ answer st q)

  pub record IsServed (s : Calls St Q A) : Type 0 where
    pub good : Good s.state
    pub expected : Expects s.owner s.state (awaited s.callers)
    pub own : Every HasOwn s.callers

  expected_at :
      {s : Calls St Q A} (o : Owner A) (cs : List (Caller St Q A))
      → IsServed s
      → s.callers ≡ cs
      → s.owner ≡ o
      → Expects o s.state (awaited cs)
  expected_at {s} o cs v at e =
      subst (λ l. Expects o s.state (awaited l)) at
        (subst (λ p. Expects p s.state (awaited s.callers)) e v.expected)

  moves-IsServed :
      {s : Calls St Q A} (xs ys : List (Caller St Q A)) (c d : Caller St Q A) (o : Owner A)
      → IsServed s
      → s.callers ≡ xs ++ c ∷ ys
      → HasOwn d
      → Expects o s.state (awaited (xs ++ d ∷ ys))
      → IsServed (record s { callers = xs ++ d ∷ ys; owner = o })
  moves-IsServed xs ys c d o v at own x = record {
    good = v.good;
    expected = x;
    own = Every-replace HasOwn xs c d ys (subst (Every HasOwn) at v.own) own;
  }

  -- A caller that awaits nothing, neither before nor after.
  rests-IsServed :
      {s : Calls St Q A} (xs ys : List (Caller St Q A)) (c d : Caller St Q A)
      → IsServed s
      → s.callers ≡ xs ++ c ∷ ys
      → awaited (c ∷ []) ≡ []
      → awaited (d ∷ []) ≡ []
      → HasOwn d
      → IsServed (record s { callers = xs ++ d ∷ ys })
  rests-IsServed {s} xs ys c d v at p q own =
      moves-IsServed xs ys c d s.owner v at own
        (subst (Expects s.owner s.state) (ap awaited at ∙ awaited-swap xs c d ys p q) v.expected)

  module _ (keeps : (st st' : St) → Changes st st' → Good st → Good st') where
    Step-IsServed : {s t : Calls St Q A} → Step answer Changes s t → IsServed s → IsServed t
    Step-IsServed (Step.comes xs ys q at) v =
        rests-IsServed xs ys resting (asking q) v at refl refl tt
    Step-IsServed {s} (Step.meets xs ys q at o) v =
        moves-IsServed xs ys (asking q) (awaiting q) (answering (answer s.state q)) v at tt
          (q, awaited-ask xs ys q (expected_at selecting _ v at o), refl)
    Step-IsServed {s} (Step.replies xs ys q a at o) v =
        let (r, e, own) = expected_at (answering a) _ v at o in
        let (same, left) = awaited-reply xs ys q r (got s.state q a) e refl in
        moves-IsServed xs ys (awaiting q) (got s.state q a) selecting v at
          (v.good, own ∙ ap (answer s.state) (sym same)) left
    Step-IsServed (Step.leaves xs ys st q a at) v =
        rests-IsServed xs ys (got st q a) resting v at refl refl tt
    Step-IsServed {s} (Step.changes st o c) v = record {
      good = keeps s.state st c v.good;
      expected =
          subst (λ p. Expects p st (awaited s.callers)) (sym o)
            (expected_at selecting s.callers v refl o);
      own = v.own;
    }

    Reach-IsServed : {s t : Calls St Q A} → IsServed s → Reach answer Changes s t → IsServed t
    Reach-IsServed v here = v
    Reach-IsServed v (next r st) = Step-IsServed st (Reach-IsServed v r)

    awaited-all_resting : (n : ℕ) → awaited (all_resting {St = St} {Q = Q} {A = A} n) ≡ []
    awaited-all_resting zero = refl
    awaited-all_resting (suc n) = awaited-all_resting n

    all_resting-HasOwn : (n : ℕ) → Every HasOwn (all_resting n)
    all_resting-HasOwn zero = tt
    all_resting-HasOwn (suc n) = (tt, all_resting-HasOwn n)

    -- However the callers and the goroutine interleave, each caller that has got an answer has got
    -- the one to its own question, given in a state that is good.
    pub started-IsServed :
        (n : ℕ) (st : St) (t : Calls St Q A)
        → Good st
        → Reach answer Changes (started n st) t
        → IsServed t
    started-IsServed n st t g r =
        Reach-IsServed
          (record { good = g; expected = awaited-all_resting n; own = all_resting-HasOwn n }) r
