-- ===== src/Server/Dispatch/Threads/Termination.antt =====
-- How long `shutdown` of server/server.go waits for the dispatchers.
use mathlib.Core.Path.{subst}
use wsp.Base.{
  ℕ, zero, suc, ◌+◌, ◌*◌, ◌≡◌, refl, sym, ap, ◌∙◌, List, [], ◌∷◌, ◌++◌, ◌⊎◌, inl, inr, Every,
  Every-at, length, arith,
}
use wsp.Server.Dispatch.Threads.{
  Dispatcher, resting, leaving, gone, crashed, asking, awaiting, fetching, Main, serving, stopped,
  replying, draining, State, Step, IsEnding, Reach, here, next,
}
use wsp.Server.Dispatch.Threads.Ending.{
  IsQuiet, left, left-replace, Calm, Calm-subst, no_request, open_not_Calm, Reach-Calm, Step-Calm,
  resting-Calm,
}

-- The steps that a dispatcher, or the main goroutine, has before it.
abbrev pub weight : Dispatcher → ℕ
weight resting = 2
weight leaving = 1
weight _ = 0

abbrev pub weights : List Dispatcher → ℕ
weights [] = 0
weights (d ∷ ds) = weight d + weights ds

abbrev pub main_weight : Main → ℕ
main_weight (draining n) = 1
main_weight _ = 0

abbrev pub measure : State → ℕ
measure s = main_weight s.main + weights s.dispatchers

-- The steps of a run.
abbrev pub steps : {s t : State} → Reach s t → ℕ
steps here = 0
steps (next r st) = suc (steps r)

weights-replace :
    (xs : List Dispatcher) (d e : Dispatcher) (ys : List Dispatcher)
    → weights (xs ++ d ∷ ys) + weight e ≡ weights (xs ++ e ∷ ys) + weight d
weights-replace [] d e ys = omega arith
weights-replace (x ∷ xs) d e ys = omega (arith, weights-replace xs d e ys)

-- Each step of a calm state is one less to come.
Step-measure : {s t : State} → Step s t → Calm s.main s.dispatchers → measure s ≡ suc (measure t)
Step-measure {s} (Step.accepts xs ys k at o) c = absurd (open_not_Calm s.main s.dispatchers o c)
Step-measure {s} (Step.asks xs ys k at m) c = no_request s xs (asking k) ys c at (λ q. q)
Step-measure {s} (Step.replies xs ys k j at m) c = no_request s xs (awaiting k) ys c at (λ q. q)
Step-measure {s} (Step.replies_nil xs ys k j at m) c = no_request s xs (awaiting k) ys c at (λ q. q)
Step-measure {s} (Step.finds xs ys k j at) c = no_request s xs (fetching k j) ys c at (λ q. q)
Step-measure {s} (Step.retries xs ys k j at) c = no_request s xs (fetching k j) ys c at (λ q. q)
Step-measure {s} (Step.shuts_down m) c = absurd (Calm-subst serving s.dispatchers c refl m)
Step-measure {s} (Step.leaves xs ys at e) c =
    omega (arith, ap weights at, weights-replace xs resting leaving ys)
Step-measure {s} (Step.counts xs ys n at m) c =
    omega (arith, ap weights at, ap main_weight m, weights-replace xs leaving gone ys)
Step-measure {s} (Step.miscounts xs ys k n at m) c = no_request s xs (asking k) ys c at (λ q. q)
Step-measure {s} (Step.stops m) c = omega (arith, ap main_weight m)
Step-measure {s} (Step.starves xs ys k at m) c = no_request s xs (awaiting k) ys c at (λ q. q)
Step-measure {s} (Step.crashes xs ys at m) c =
    let e : leaving ≡ gone =
      Every-at (λ d. d ≡ gone) xs leaving ys (Calm-subst stopped (xs ++ leaving ∷ ys) c at m) in
    absurd (omega (arith, ap weight e))
Step-measure {s} (Step.crashes_asking xs ys k at m) c = no_request s xs (asking k) ys c at (λ q. q)

Reach-measure :
    {s t : State} (r : Reach s t) → Calm s.main s.dispatchers → measure s ≡ steps r + measure t
Reach-measure here c = omega arith
Reach-measure (next r st) c = omega (arith, Reach-measure r c, Step-measure st (Reach-Calm c r))

-- What a quiet list holds.
abbrev Contains : Dispatcher → List Dispatcher → Type 0
Contains d ds = (xs : List Dispatcher) × (ys : List Dispatcher) × (ds ≡ xs ++ d ∷ ys)

Contains-later : (d e : Dispatcher) (ds : List Dispatcher) → Contains d ds → Contains d (e ∷ ds)
Contains-later d e ds (xs, ys, h) = (e ∷ xs, ys, ap (λ l. e ∷ l) h)

quiet_cases :
    (ds : List Dispatcher)
    → Every IsQuiet ds
    → (left ds ≡ 0) ⊎ Contains resting ds ⊎ Contains leaving ds
quiet_cases [] q = inl refl
quiet_cases (resting ∷ ds) q = inr (inl ([], ds, refl))
quiet_cases (leaving ∷ ds) q = inr (inr ([], ds, refl))
quiet_cases (gone ∷ ds) (q, qs) = elim (quiet_cases ds qs) [
  | inl e ↦ inl (omega (arith, e))
  | inr (inl h) ↦ inr (inl (Contains-later resting gone ds h))
  | inr (inr h) ↦ inr (inr (Contains-later leaving gone ds h))
]
quiet_cases (crashed ∷ ds) (q, qs) = absurd q
quiet_cases (asking k ∷ ds) (q, qs) = absurd q
quiet_cases (awaiting k ∷ ds) (q, qs) = absurd q
quiet_cases (fetching k j ∷ ds) (q, qs) = absurd q

-- A calm state whose main goroutine has not stopped can go on.
progress :
    (s : State) (m : Main)
    → s.main ≡ m
    → Calm m s.dispatchers
    → (s.main ≡ stopped) ⊎ ((t : State) × Step s t)
progress s stopped e c = inl e
progress s serving e c = absurd c
progress s (replying k) e c = absurd c
progress s (draining n) e (quiet, l) = elim (quiet_cases s.dispatchers quiet) [
  | inl none_left ↦ inr (_, Step.stops (e ∙ ap draining (sym l ∙ none_left)))
  | inr (inl (xs, ys, h)) ↦ inr (_, Step.leaves xs ys h (subst IsEnding (sym e) tt))
  | inr (inr (xs, ys, h)) ↦ inr (
    _,
    Step.counts xs ys (left (xs ++ gone ∷ ys)) h
        (e ∙ ap draining (omega (arith, l, ap left h, left-replace xs leaving gone ys))),
  )
]

Reach-after : {s t u : State} → Step s t → Reach t u → Reach s u
Reach-after st here = next here st
Reach-after st (next r st') = next (Reach-after st r) st'

-- All that follows ends with the main goroutine stopped.
completes :
    (n : ℕ) (s : State)
    → Calm s.main s.dispatchers
    → measure s ≡ n
    → (t : State) × Reach s t × (t.main ≡ stopped)
completes zero s c e = elim (progress s s.main refl c) [
  | inl done ↦ (s, here, done)
  | inr (t, st) ↦ absurd (omega (arith, Step-measure st c, e))
]
completes (suc n) s c e = elim (progress s s.main refl c) [
  | inl done ↦ (s, here, done)
  | inr (t, st) ↦
      let (u, r, done) = completes n t (Step-Calm st c) (omega (arith, Step-measure st c, e)) in
      (u, Reach-after st r, done)
]

weights-gone : (ds : List Dispatcher) → Every (λ d. d ≡ gone) ds → weights ds ≡ 0
weights-gone [] e = refl
weights-gone (d ∷ ds) (e, es) = omega (arith, ap weight e, weights-gone ds es)

weights-resting : (ds : List Dispatcher) → Every (λ d. d ≡ resting) ds → weights ds ≡ 2 * length ds
weights-resting [] e = refl
weights-resting (d ∷ ds) (e, es) = omega (arith, ap weight e, weights-resting ds es)

-- If no dispatcher has a request when `shutdown` begins, its wait ends: every run from there can be
-- continued until the main goroutine has stopped and all dispatchers have ended, and then it has
-- taken two steps for each dispatcher and one more, however they interleave.
pub shuts_down-ends :
    (s t : State)
    → s.main ≡ serving
    → Every (λ d. d ≡ resting) s.dispatchers
    → (r : Reach (record s { main = draining (length s.dispatchers) }) t)
    → (u : State) × (q : Reach t u) × (u.main ≡ stopped)
      × Every (λ d. d ≡ gone) u.dispatchers
      × (steps r + steps q ≡ 2 * length s.dispatchers + 1)
shuts_down-ends s t m quiet r =
    let calm = resting-Calm s.dispatchers quiet in
    let calm' = Reach-Calm calm r in
    let (u, q, done) = completes (measure t) t calm' refl in
    let end : Every (λ d. d ≡ gone) u.dispatchers =
      Calm-subst stopped u.dispatchers (Reach-Calm calm' q) refl done in
    (
      u,
      q,
      done,
      end,
      omega (
        arith,
        Reach-measure r calm,
        Reach-measure q calm',
        weights-gone u.dispatchers end,
        weights-resting s.dispatchers quiet,
        ap main_weight done,
      ),
    )
