-- ===== src/Server/Dispatch/Clean/Tallies.antt =====
-- What the loop of `cleanPools` adds up does not depend on the order of the pools.
use Prim.Native.String.{String}
use mathlib.Core.List.{Permᴰ, append_assoc}
use mathlib.Core.List.Permᴰ
use mathlib.Core.Path.{subst}
use wsp.Base.{ℕ, ◌+◌, ◌≡◌, refl, sym, ◌∙◌, List, [], ◌∷◌, ◌++◌, arith, ◌==◌, ltb, if◌then◌else◌}
use wsp.Base.Maps.{AllAt, add_at, count_at}
use wsp.Server.Pool.{Pool}
use wsp.Server.Metrics.{max_label}
use wsp.Server.Metrics.Total.{total_where, total_where-add_at}
use wsp.Server.Dispatch.{World, Tally}
use wsp.Server.Dispatch.Clean.Shares.{Share, gone, left, apply, share, run}

-- Two tallies of which the gauges say the same.
pub record Same (t u : Tally) : Type 0 where
  pub kept : Permᴰ t.kept u.kept
  pub closed : t.closed ≡ u.closed
  pub total : t.totals.total ≡ u.totals.total
  pub idle_total : t.totals.idle_total ≡ u.totals.idle_total
  pub busy_total : t.totals.busy_total ≡ u.totals.busy_total
  pub closed_total : t.totals.closed_total ≡ u.totals.closed_total
  pub counts : (n : ℕ) → count_at t.conns_per_pool n ≡ count_at u.conns_per_pool n
  pub above :
      total_where (ltb max_label) t.conns_per_pool ≡ total_where (ltb max_label) u.conns_per_pool

Same-refl : (t : Tally) → Same t t
Same-refl t = record {
  kept = Permᴰ.refl t.kept;
  closed = refl;
  total = refl;
  idle_total = refl;
  busy_total = refl;
  closed_total = refl;
  counts = λ n. refl;
  above = refl;
}

Same-trans : (t u v : Tally) → Same t u → Same u v → Same t v
Same-trans t u v s r = record {
  kept = Permᴰ.trans s.kept r.kept;
  closed = s.closed ∙ r.closed;
  total = s.total ∙ r.total;
  idle_total = s.idle_total ∙ r.idle_total;
  busy_total = s.busy_total ∙ r.busy_total;
  closed_total = s.closed_total ∙ r.closed_total;
  counts = λ n. s.counts n ∙ r.counts n;
  above = s.above ∙ r.above;
}

pub count_at-add_at :
    (key n k : ℕ) (m : List (ℕ × ℕ))
    → count_at (add_at key n m) k ≡ count_at m k + (if key == k then n else 0)
unfolding count_at add_at
count_at-add_at key n k [] = ground arith
count_at-add_at key n k (e ∷ m) = ground (arith, count_at-add_at key n k m)

apply-Same : (d : Share) (t u : Tally) → Same t u → Same (apply d t) (apply d u)
unfolding apply
apply-Same (gone n) t u s = record {
  kept = s.kept;
  closed = omega (arith, s.closed);
  total = s.total;
  idle_total = s.idle_total;
  busy_total = s.busy_total;
  closed_total = s.closed_total;
  counts = s.counts;
  above = s.above;
}
apply-Same (left key r ps) t u s = record {
  kept = Permᴰ.append_right ((key, r) ∷ []) s.kept;
  closed = s.closed;
  total = omega (arith, s.total);
  idle_total = omega (arith, s.idle_total);
  busy_total = omega (arith, s.busy_total);
  closed_total = omega (arith, s.closed_total);
  counts = λ n. omega (
    arith,
    s.counts n,
    count_at-add_at ps.total 1 n t.conns_per_pool,
    count_at-add_at ps.total 1 n u.conns_per_pool,
  );
  above = omega (
    arith,
    s.above,
    total_where-add_at (ltb max_label) ps.total 1 t.conns_per_pool,
    total_where-add_at (ltb max_label) ps.total 1 u.conns_per_pool,
  );
}

snoc_swap :
    {A : Type 0} (xs ys : List A) (a b : A)
    → Permᴰ xs ys
    → Permᴰ ((xs ++ a ∷ []) ++ b ∷ []) ((ys ++ b ∷ []) ++ a ∷ [])
snoc_swap xs ys a b p =
    subst (λ l. Permᴰ l ((ys ++ b ∷ []) ++ a ∷ [])) (sym (append_assoc xs (a ∷ []) (b ∷ [])))
      (subst (Permᴰ (xs ++ a ∷ b ∷ [])) (sym (append_assoc ys (b ∷ []) (a ∷ []))) (
        Permᴰ.trans (Permᴰ.append_right (a ∷ b ∷ []) p)
          (Permᴰ.append_left ys (Permᴰ.swap refl refl))))

apply_comm : (d e : Share) (t : Tally) → Same (apply d (apply e t)) (apply e (apply d t))
unfolding apply
apply_comm (gone n) (gone k) t = record {
  kept = Permᴰ.refl t.kept;
  closed = omega arith;
  total = refl;
  idle_total = refl;
  busy_total = refl;
  closed_total = refl;
  counts = λ _. refl;
  above = refl;
}
apply_comm (gone n) (left key r ps) t = Same-refl _
apply_comm (left key r ps) (gone n) t = Same-refl _
apply_comm (left key r ps) (left key' r' ps') t = record {
  kept = snoc_swap t.kept t.kept (key', r') (key, r) (Permᴰ.refl t.kept);
  closed = refl;
  total = omega arith;
  idle_total = omega arith;
  busy_total = omega arith;
  closed_total = omega arith;
  counts = λ n. omega (
    arith,
    count_at-add_at ps.total 1 n (add_at ps'.total 1 t.conns_per_pool),
    count_at-add_at ps'.total 1 n t.conns_per_pool,
    count_at-add_at ps'.total 1 n (add_at ps.total 1 t.conns_per_pool),
    count_at-add_at ps.total 1 n t.conns_per_pool,
  );
  above = omega (
    arith,
    total_where-add_at (ltb max_label) ps.total 1 (add_at ps'.total 1 t.conns_per_pool),
    total_where-add_at (ltb max_label) ps'.total 1 t.conns_per_pool,
    total_where-add_at (ltb max_label) ps'.total 1 (add_at ps.total 1 t.conns_per_pool),
    total_where-add_at (ltb max_label) ps.total 1 t.conns_per_pool,
  );
}

run-Same :
    (w : World) (xs : List (String × Pool)) (t u : Tally)
    → Same t u
    → Same (run w xs t) (run w xs u)
unfolding run
run-Same w [] t u s = s
run-Same w (entry ∷ rest) t u s = run-Same w rest _ _ (apply-Same (share w entry) t u s)

-- The order of the pools does not matter for what the loop adds up.
pub run-reordered :
    (w : World) {xs ys : List (String × Pool)}
    → Permᴰ xs ys
    → (t : Tally) → Same (run w xs t) (run w ys t)
unfolding run
run-reordered w Permᴰ.nil t = Same-refl t
run-reordered w (Permᴰ.cons {a} {b} {l₁ = xs} {l₂ = ys} e p) t =
    subst (λ c. Same (run w xs (apply (share w a) t)) (run w ys (apply (share w c) t))) e
      (run-reordered w p (apply (share w a) t))
run-reordered w (Permᴰ.swap {a} {b} {a'} {b'} {l} e f) t =
    subst (λ c. Same (run w (a ∷ b ∷ l) t) (run w (a' ∷ c ∷ l) t)) e
      (subst (λ c. Same (run w (a ∷ b ∷ l) t) (run w (c ∷ a ∷ l) t)) f
        (run-Same w l _ _ (apply_comm (share w b) (share w a) t)))
run-reordered w (Permᴰ.trans p q) t = Same-trans _ _ _ (run-reordered w p t) (run-reordered w q t)

pub AllAt-reordered :
    {V : Type 0} (P : V → Type 0) {xs ys : List (String × V)}
    → Permᴰ xs ys
    → AllAt P xs
    → AllAt P ys
AllAt-reordered P Permᴰ.nil h = tt
AllAt-reordered P (Permᴰ.cons e p) (h, hs) = (subst (λ c. P c.1) e h, AllAt-reordered P p hs)
AllAt-reordered P (Permᴰ.swap e f) (h, (k, hs)) =
    (subst (λ c. P c.1) f k, (subst (λ c. P c.1) e h, hs))
AllAt-reordered P (Permᴰ.trans p q) h = AllAt-reordered P q (AllAt-reordered P p h)
