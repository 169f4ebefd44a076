-- ===== src/App/Upstreams/Stopping/Stolen.antt =====
-- When `Stop` ends the process.
use wsp.Base.{◌≡◌, refl, ◌≢◌, ◌⊎◌, inl, inr, arith, Bool, List, Option}
use wsp.App.Upstreams.{Text}
use wsp.App.Upstreams.Stopping.{
  selecting, answering, ended, panicked, opened, closed, absent, uncalled, waiting, stopped, Desk,
  Step, Reach, here, next,
}

module _ {Net : Type 0} (parse_cidr : Text → Option Net) (inside : Net → Text → Bool)
    (LooksUp : List (Text × Option Net) → List (Text × Option Net) → Type 0) where
  -- When `Stop` is called while the goroutine answers a handler, `Stop` can receive the answer. It
  -- then sets `allow` to nil, and the goroutine panics when it closes it, while the handler waits.
  pub stopping_panics :
      (s : Desk Net) (asked : Text)
      → s.owner ≡ answering asked
      → s.stopper ≡ uncalled
      → s.ask_ip ≡ opened
      → s.allow ≡ opened
      → Reach parse_cidr inside LooksUp s
          (record s { owner = panicked; ask_ip = absent; allow = absent; stopper = stopped })
  stopping_panics s asked o u a b =
      next (next (next here (Step.closes u a)) (Step.steals asked o refl b))
        (Step.panics refl refl refl)

  -- The goroutine will hear of the closed channel, or has heard of it.
  abbrev Calm : Desk Net → Type 0
  Calm s =
      ((s.owner ≡ selecting) × (s.ask_ip ≡ closed) × (s.allow ≡ opened))
      ⊎ ((s.owner ≡ ended) × (s.ask_ip ≡ absent))

  Step-Calm : {s t : Desk Net} → Step parse_cidr inside LooksUp s t → Calm s → Calm t
  Step-Calm (Step.calls xs ys ip at) c = c
  Step-Calm (Step.takes xs ys ip at o a) c = absurd (ground (arith, o, a, c))
  Step-Calm (Step.answers xs ys ip asked at o a) c = absurd (ground (arith, o, a, c))
  Step-Calm (Step.ticks es o l) c = c
  Step-Calm (Step.closes u a) c = absurd (ground (arith, a, c))
  Step-Calm (Step.crashes xs ys ip at a) c = c
  Step-Calm (Step.ends o a b) c = inr (refl, refl)
  Step-Calm (Step.panics o a b) c = absurd (ground (arith, o, b, c))
  Step-Calm (Step.denied xs ys ip at a) c = c
  Step-Calm (Step.steals asked o w a) c = absurd (ground (arith, o, c))
  Step-Calm (Step.finishes w a) c = elim c [ inl h ↦ absurd (ground (arith, a, h)) | inr h ↦ inr h ]

  Reach-Calm : {s t : Desk Net} → Calm s → Reach parse_cidr inside LooksUp s t → Calm t
  Reach-Calm c here = c
  Reach-Calm c (next r st) = Step-Calm st (Reach-Calm c r)

  -- If the goroutine answers nobody when `Stop` is called, it does not panic, whatever follows.
  pub stops-Calm :
      (s t : Desk Net)
      → s.owner ≡ selecting
      → s.allow ≡ opened
      → Reach parse_cidr inside LooksUp (record s { ask_ip = closed; stopper = waiting }) t
      → t.owner ≢ panicked
  stops-Calm s t o a r = ground (arith, Reach-Calm (inl (o, refl, a)) r)
