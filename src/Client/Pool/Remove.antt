-- ===== src/Client/Pool/Remove.antt =====
-- `remove` of client/pool.go: the connection that has ended leaves the list, and is counted.
use wsp.Base.{
  ℕ, ◌+◌, ◌≤◌, ◌≡◌, refl, inl, inr, true, List, [], ◌∷◌, Every, Bool-cases, arith, length, ◌==◌,
  if◌then◌else◌,
}
use wsp.Runtime.{ok, Returns}
use wsp.Client.Pool.{Connection, Pool, remove_loop, remove}

-- The channels of every connection are open, and its goroutine `keepAlive` runs.
abbrev pub AllLive : List Connection → Type 0
AllLive = Every (λ c. (c.keeper ≡ true) × (c.channels ≡ true))

-- The connections but those with the reference.
abbrev pub others : ℕ → List Connection → List Connection
others ref [] = []
others ref (c ∷ cs) = if c.ref == ref then others ref cs else c ∷ others ref cs

pub others-AllLive : (ref : ℕ) (cs : List Connection) → AllLive cs → AllLive (others ref cs)
others-AllLive ref [] live = tt
others-AllLive ref (c ∷ cs) (l, live) = elim (Bool-cases (c.ref == ref)) [
  | inl hit ↦ rw hit (others-AllLive ref cs live)
  | inr miss ↦ rw miss (l, others-AllLive ref cs live)
]

-- How many connections have the reference.
abbrev pub gone : ℕ → List Connection → ℕ
gone ref [] = 0
gone ref (c ∷ cs) = (if c.ref == ref then 1 else 0) + gone ref cs

remove_loop-others :
    (ref : ℕ) (cs : List Connection)
    → AllLive cs
    → remove_loop ref cs ≡ ok (others ref cs, gone ref cs)
unfolding remove_loop
remove_loop-others ref [] live = refl
remove_loop-others ref (c ∷ cs) (l, live) =
    let e = remove_loop-others ref cs live in
    elim (Bool-cases (c.ref == ref)) [
      | inl hit ↦ rw (hit, l.1, e) refl
      | inr miss ↦ rw (miss, e) refl
    ]

pub others-gone :
    (ref : ℕ) (cs : List Connection) → length (others ref cs) + gone ref cs ≡ length cs
others-gone ref [] = refl
others-gone ref (c ∷ cs) = ground (arith, others-gone ref cs)

-- What `remove` leaves of a pool.
pub record Removed (ref : ℕ) (p q : Pool) : Type 0 where
  pub rest : q.connections ≡ others ref p.connections
  pub live : AllLive q.connections
  pub counted : length q.connections + q.disconnects ≡ length p.connections + p.disconnects
  pub fewer : length q.connections ≤ length p.connections
  pub running : q.is_shut_down ≡ p.is_shut_down

-- When the connections of the pool are live, `remove` returns. Exactly the connections with the
-- reference are gone, what is left is live, and each that is gone is counted as a disconnect.
pub remove-Removed :
    (ref : ℕ) (p : Pool) → AllLive p.connections → Returns (remove ref p) (Removed ref p)
unfolding remove
remove-Removed ref p live = rw (remove_loop-others ref p.connections live) (record {
  rest = refl;
  live = others-AllLive ref p.connections live;
  counted = omega (arith, others-gone ref p.connections);
  fewer = omega (arith, others-gone ref p.connections);
  running = refl;
})
