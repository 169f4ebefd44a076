-- ===== src/Server/Metrics/Total.antt =====
-- The gauges by number of connections: `saveMetrics` of server/server.go loses no pool.
use Prim.Native.String.{String}
use wsp.Base.{
  ℕ, zero, suc, ◌+◌, ◌≡◌, refl, ◌≢◌, ◌∙◌, inl, inr, Bool, ◌&&◌, List, [], ◌∷◌, ltb, leb, ◌==◌,
  arith, Bool-cases, if◌then◌else◌,
}
use wsp.Base.Maps.{count_at, add_at}
use wsp.Server.Metrics.{save_metrics, max_label, fold_large, label_loop}
use wsp.Server.Pool.Keeper.{PoolSize}

abbrev pub Absent : ℕ → List (ℕ × ℕ) → Type 0
Absent key [] = Unit
Absent key (e ∷ m) = (e.0 ≢ key) × Absent key m

-- As in a Go map, no key stands twice.
abbrev pub DistinctKeys : List (ℕ × ℕ) → Type 0
DistinctKeys [] = Unit
DistinctKeys (e ∷ m) = Absent e.0 m × DistinctKeys m

Absent-add_at :
    (key other n : ℕ) (m : List (ℕ × ℕ))
    → other ≢ key
    → Absent key m
    → Absent key (add_at other n m)
unfolding add_at
Absent-add_at key other n [] h a = (h, tt)
Absent-add_at key other n (e ∷ m) h (a, others) = elim (Bool-cases (e.0 == other)) [
  | inl hit ↦ rw hit (a, others)
  | inr miss ↦ rw miss (a, Absent-add_at key other n m h others)
]

pub add_at-DistinctKeys :
    (key n : ℕ) (m : List (ℕ × ℕ)) → DistinctKeys m → DistinctKeys (add_at key n m)
unfolding add_at
add_at-DistinctKeys key n [] d = (tt, tt)
add_at-DistinctKeys key n (e ∷ m) (a, d) = elim (Bool-cases (e.0 == key)) [
  | inl hit ↦ rw hit (a, d)
  | inr miss ↦
      rw miss (Absent-add_at e.0 key n m (λ same. ground arith) a, add_at-DistinctKeys key n m d)
]

count_at_of_Absent : (key : ℕ) (m : List (ℕ × ℕ)) → Absent key m → count_at m key ≡ 0
unfolding count_at
count_at_of_Absent key [] a = refl
count_at_of_Absent key (e ∷ m) (a, others) = ground (arith, count_at_of_Absent key m others)

-- The counts whose keys pass the test, added up.
abbrev pub total_where : (ℕ → Bool) → List (ℕ × ℕ) → ℕ
total_where test [] = 0
total_where test (e ∷ m) = (if test e.0 then e.1 else 0) + total_where test m

pub total_where-add_at :
    (test : ℕ → Bool) (key n : ℕ) (m : List (ℕ × ℕ))
    → total_where test (add_at key n m) ≡ total_where test m + (if test key then n else 0)
unfolding add_at
total_where-add_at test key n [] = omega arith
total_where-add_at test key n (e ∷ m) = elim (Bool-cases (e.0 == key)) [
  | inl hit ↦ let same : e.0 ≡ key = ground arith in rw (hit, same) (ground arith)
  | inr miss ↦ rw miss (omega (arith, total_where-add_at test key n m))
]

-- From `n` on, so many keys.
abbrev window : ℕ → ℕ → ℕ → Bool
window n rounds key = leb n key && ltb key (n + rounds)

window_first :
    (n rounds : ℕ) (m : List (ℕ × ℕ))
    → DistinctKeys m
    → count_at m n + total_where (window (suc n) rounds) m ≡ total_where (window n (suc rounds)) m
unfolding count_at
window_first n rounds [] d = omega arith
window_first n rounds (e ∷ m) (a, d) =
    ground (arith, window_first n rounds m d, count_at_of_Absent e.0 m a)

-- The values of a list of gauges, added up.
abbrev pub sum_values : List (String × ℕ) → ℕ
sum_values [] = 0
sum_values (g ∷ gs) = g.1 + sum_values gs

total_where_none : (n : ℕ) (m : List (ℕ × ℕ)) → total_where (window n 0) m ≡ 0
total_where_none n [] = refl
total_where_none n (e ∷ m) = ground (arith, total_where_none n m)

sum_values-label_loop :
    (rounds n : ℕ) (m : List (ℕ × ℕ))
    → DistinctKeys m
    → sum_values (label_loop rounds n m) ≡ total_where (window n rounds) m
unfolding label_loop
sum_values-label_loop zero n m d = rw (total_where_none n m) refl
sum_values-label_loop (suc rounds) n m d =
    omega (arith, window_first n rounds m d, sum_values-label_loop rounds (suc n) m d)

fold_large-DistinctKeys : (l m : List (ℕ × ℕ)) → DistinctKeys m → DistinctKeys (fold_large l m)
unfolding fold_large
fold_large-DistinctKeys [] m d = d
fold_large-DistinctKeys (e ∷ l) m d = elim (Bool-cases (ltb max_label e.0)) [
  | inl large ↦
      rw large
        (fold_large-DistinctKeys l (add_at max_label e.1 m) (add_at-DistinctKeys max_label e.1 m d))
  | inr small ↦ rw small (fold_large-DistinctKeys l m d)
]

total_where-fold_large :
    (l m : List (ℕ × ℕ))
    → total_where (window 1 max_label) (fold_large l m)
      ≡ total_where (window 1 max_label) m + total_where (ltb max_label) l
unfolding fold_large
total_where-fold_large [] m = omega arith
total_where-fold_large (e ∷ l) m = elim (Bool-cases (ltb max_label e.0)) [
  | inl large ↦ rw large (
      omega (
        arith,
        total_where-fold_large l (add_at max_label e.1 m),
        total_where-add_at (window 1 max_label) max_label e.1 m,
      ))
  | inr small ↦ rw small (omega (arith, total_where-fold_large l m))
]

total_where-split :
    (m : List (ℕ × ℕ))
    → total_where (window 1 max_label) m + total_where (ltb max_label) m ≡ total_where (ltb 0) m
total_where-split [] = refl
total_where-split (e ∷ m) = ground (arith, total_where-split m)

-- The gauges add up to the number of pools that have a connection: every such pool is counted under
-- one label, those with more connections than the largest label under that.
pub sum_values-save_metrics :
    (pools : ℕ) (totals : PoolSize) (m : List (ℕ × ℕ))
    → DistinctKeys m
    → sum_values (save_metrics pools totals m).pool_conns ≡ total_where (ltb 0) m
unfolding save_metrics
sum_values-save_metrics pools totals m d =
    sum_values-label_loop max_label 1 (fold_large m m) (fold_large-DistinctKeys m m d)
    ∙ (total_where-fold_large m m ∙ total_where-split m)
