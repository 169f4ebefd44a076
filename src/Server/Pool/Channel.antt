-- ===== src/Server/Pool/Channel.antt =====
-- The channel `idle` of a pool: what `cleanIdleChan` of server/pool.go makes of it.
use mathlib.Core.Path.{subst}
use mathlib.Core.List.{append_assoc, append-nil}
use wsp.Base.{
  ℕ, ◌≤◌, ◌≡◌, refl, sym, ap, ◌∙◌, inl, inr, true, List, [], ◌∷◌, ◌++◌, length, length-append,
  Bool-cases, lt→ltb, arith, if◌then◌else◌,
}
use wsp.Runtime.{ok}
use wsp.Server.Connection.{Connection}
use wsp.Server.Pool.{Pool, is_idle}
use wsp.Server.Pool.Keeper.{rotate, clean_idle_chan}

-- Those of the connections that are idle, in the same order.
abbrev pub idle_only : (ℕ → Connection) → List ℕ → List ℕ
idle_only h [] = []
idle_only h (c ∷ cs) = if is_idle (h c).status then c ∷ idle_only h cs else idle_only h cs

pub length-idle_only-le : (h : ℕ → Connection) (l : List ℕ) → length (idle_only h l) ≤ length l
length-idle_only-le h [] = omega arith
length-idle_only-le h (c ∷ cs) = ground (arith, length-idle_only-le h cs)

abbrev pub with_buffer : List ℕ → Pool → Pool
with_buffer l p = record p { idle_chan = record p.idle_chan { buffer = l } }

-- The pool with an open channel that holds `l`.
abbrev holding : Pool → List ℕ → Pool
holding p l = record p { idle_chan = record { buffer = l; cap = p.idle_chan.cap; is_open = true } }

rotate-eq-idle_only :
    (p : Pool) (xs ys : List ℕ)
    → length (xs ++ ys) ≤ p.idle_chan.cap
    → rotate (length xs) (holding p (xs ++ ys)) ≡ ok (holding p (ys ++ idle_only p.heap xs))
unfolding rotate
rotate-eq-idle_only p [] ys fits = rw (append-nil ys) refl
rotate-eq-idle_only p (x ∷ xs) ys fits = elim (Bool-cases (is_idle (p.heap x).status)) [
  | inl yes_idle ↦
      rw
        (
          yes_idle,
          lt→ltb (length (xs ++ ys)) p.idle_chan.cap (omega arith),
          append_assoc xs ys (x ∷ []),
        )
        (rotate-eq-idle_only p xs (ys ++ x ∷ []) (
            omega (
              arith,
              length-append xs (ys ++ x ∷ []),
              length-append ys (x ∷ []),
              length-append xs ys,
            ))
          ∙ ap (λ l. ok (holding p l)) (append_assoc ys (x ∷ []) (idle_only p.heap xs)))
  | inr not_idle ↦ rw not_idle (rotate-eq-idle_only p xs ys (omega arith))
]

-- `cleanIdleChan`, when nobody else uses the channel meanwhile, neither blocks nor panics: it takes
-- the connections that are not idle out of the channel, and leaves the others in their order.
pub clean_idle_chan-eq-idle_only :
    (p : Pool)
    → p.idle_chan.is_open ≡ true
    → length p.idle_chan.buffer ≤ p.idle_chan.cap
    → clean_idle_chan p ≡ ok (with_buffer (idle_only p.heap p.idle_chan.buffer) p)
unfolding clean_idle_chan
clean_idle_chan-eq-idle_only p running fits =
    subst
      (λ b.
        rotate (length l) (record p { idle_chan = record p.idle_chan { is_open = b } })
        ≡ ok (record p {
          idle_chan = record p.idle_chan { buffer = idle_only p.heap l; is_open = b };
        }))
      (sym running) opened
  where
    l : List ℕ
    l = p.idle_chan.buffer

    opened : rotate (length l) (holding p l) ≡ ok (holding p (idle_only p.heap l))
    opened =
        subst (λ k. rotate (length l) (holding p k) ≡ ok (holding p (idle_only p.heap l)))
          (append-nil l) (rotate-eq-idle_only p l [] (omega (arith, fits, length-append l [])))
