-- ===== src/Server/Dispatch/Clean/Order.antt =====
-- `cleanPools` of server/server.go ranges over a Go map, whose order is not specified.
use Prim.Native.String.{String}
use mathlib.Core.List.{Permᴰ}
use mathlib.Core.Quot
use mathlib.Core.Quot.{Quot}
use wsp.Base.{
  ℕ, zero, suc, ◌+◌, ◌≡◌, refl, sym, ap, ◌∙◌, List, [], ◌∷◌, Option, none, some, arith, length,
  ◌==◌, ltb, if◌then◌else◌,
}
use wsp.Base.Keys.{IsMap, at-reordered}
use wsp.Base.Maps.{at, AllAt, add_at, count_at}
use mathlib.Core.Path.{subst}
use wsp.Server.Pool.{Pool}
use wsp.Server.Pool.Keeper.{PoolSize}
use wsp.Runtime.{ok, Returns}
use wsp.Server.Pool.Lifecycle.{IsRunning}
use wsp.Server.Metrics.{Gauges, save_metrics, max_label, fold_large, label_loop}
use wsp.Server.Metrics.Total.{total_where}
use wsp.Server.Dispatch.{Server, World, Tally, no_sizes, clean_pools}
use wsp.Server.Dispatch.Clean.Shares.{run, clean_pools_loop-eq-run}
use wsp.Server.Dispatch.Clean.Tables.{shares-IsMap}
use wsp.Server.Dispatch.Clean.Tallies.{Same, count_at-add_at, run-reordered, AllAt-reordered}
use wsp.Server.Dispatch.Register.{AllRunning}
use wsp.Server.Dispatch.Clean.{report}

-- The gauges look at the counts alone.
label_loop-same :
    (rounds n : ℕ) (m k : List (ℕ × ℕ))
    → ((j : ℕ) → count_at m j ≡ count_at k j)
    → label_loop rounds n m ≡ label_loop rounds n k
unfolding label_loop
label_loop-same zero n m k h = refl
label_loop-same (suc rounds) n m k h = rw (h n, label_loop-same rounds (suc n) m k h) refl

count_at-fold_large :
    (l m : List (ℕ × ℕ)) (n : ℕ)
    → count_at (fold_large l m) n
      ≡ count_at m n + (if max_label == n then total_where (ltb max_label) l else 0)
unfolding fold_large
count_at-fold_large [] m n = ground arith
count_at-fold_large (e ∷ l) m n = ground (
  arith,
  count_at-fold_large l (add_at max_label e.1 m) n,
  count_at-fold_large l m n,
  count_at-add_at max_label e.1 n m,
)

pub save_metrics-same :
    (pools : ℕ) (t u : PoolSize) (m k : List (ℕ × ℕ))
    → (t.total ≡ u.total)
      × (t.idle_total ≡ u.idle_total)
      × (t.busy_total ≡ u.busy_total)
      × (t.closed_total ≡ u.closed_total)
    → ((n : ℕ) → count_at m n ≡ count_at k n)
    → total_where (ltb max_label) m ≡ total_where (ltb max_label) k
    → save_metrics pools t m ≡ save_metrics pools u k
unfolding save_metrics
save_metrics-same pools t u m k (e0, e1, e2, e3) h above =
    rw
      (
        e0,
        e1,
        e2,
        e3,
        label_loop-same max_label 1 (fold_large m m) (fold_large k k)
            (λ n. ground (arith, count_at-fold_large m m n, count_at-fold_large k k n, h n, above)),
      )
      refl

pub length-reordered : {A : Type 0} {xs ys : List A} → Permᴰ xs ys → length xs ≡ length ys
length-reordered Permᴰ.nil = refl
length-reordered (Permᴰ.cons e p) = ap suc (length-reordered p)
length-reordered (Permᴰ.swap e f) = refl
length-reordered (Permᴰ.trans p q) = length-reordered p ∙ length-reordered q

-- A Go map with the order of its entries forgotten.
abbrev pub Table : Type 0
Table = Quot (Permᴰ {A = String × Pool})

abbrev pub table : List (String × Pool) → Table
table = Quot.mk

-- What two runs of `cleanPools` agree on.
abbrev pub Alike : Server × Option Gauges → Server × Option Gauges → Type 0
Alike a b =
    (table a.0.pools ≡ table b.0.pools)
    × ((key : String) → at a.0.pools key ≡ at b.0.pools key)
    × (a.0.closed ≡ b.0.closed)
    × (a.1 ≡ b.1)

-- What `cleanPools` counts from.
abbrev start : Server → Tally
start s = record { kept = []; closed = s.closed; totals = no_sizes; conns_per_pool = [] }

-- The result of `cleanPools` on running pools, in the order of the list.
reported : World → List (String × Pool) → Server → Server × Option Gauges
reported w [] s = (s, none)
reported w (entry ∷ rest) s = report s (run w (entry ∷ rest) (start s))

clean_pools-eq-reported :
    (w : World) (s : Server) (l : List (String × Pool))
    → s.pools ≡ l
    → AllAt IsRunning l
    → clean_pools w s ≡ ok (reported w l s)
unfolding clean_pools reported
clean_pools-eq-reported w s [] e all = simp (e, clean_pools)
clean_pools-eq-reported w s (entry ∷ rest) e all =
    rw (e, clean_pools, clean_pools_loop-eq-run w (entry ∷ rest) (start s) all) refl

reported-IsMap :
    (w : World) (s : Server) (l : List (String × Pool))
    → s.pools ≡ l
    → IsMap l
    → IsMap (reported w l s).0.pools
unfolding reported
reported-IsMap w s [] e m = subst IsMap (sym e) m
reported-IsMap w s (entry ∷ rest) e m = shares-IsMap w (entry ∷ rest) (start s) m

-- `cleanPools` keeps the table a map.
pub clean_pools-IsMap :
    (w : World) (s : Server)
    → AllRunning s
    → IsMap s.pools
    → Returns (clean_pools w s) (λ r. IsMap r.0.pools)
clean_pools-IsMap w s all m =
    rw (clean_pools-eq-reported w s s.pools refl all) (reported-IsMap w s s.pools refl m)

report-Alike :
    (s s' : Server) (t u : Tally) → IsMap t.kept → Same t u → Alike (report s t) (report s' u)
report-Alike s s' t u m v = (
  Quot.sound v.kept,
  λ key. at-reordered key v.kept m,
  v.closed,
  rw (length-reordered v.kept) (
      ap some (
        save_metrics-same (length u.kept)
          (record t.totals { closed_total = t.totals.closed_total + t.closed })
          (record u.totals { closed_total = u.totals.closed_total + u.closed }) t.conns_per_pool
          u.conns_per_pool
          (v.total, v.idle_total, v.busy_total, omega (arith, v.closed_total, v.closed)) v.counts
          v.above)),
)

reported-Alike :
    (w : World) (s : Server) (xs ys : List (String × Pool))
    → s.pools ≡ xs
    → IsMap xs
    → Permᴰ xs ys
    → Alike (reported w xs s) (reported w ys (record s { pools = ys }))
unfolding reported
reported-Alike w s [] [] e m p = (ap table e, λ key. ap (λ l. at l key) e, refl, refl)
reported-Alike w s [] (y ∷ ys) e m p = absurd (omega (arith, length-reordered p))
reported-Alike w s (x ∷ xs) [] e m p = absurd (omega (arith, length-reordered p))
reported-Alike w s (x ∷ xs) (y ∷ ys) e m p =
    report-Alike s (record s { pools = y ∷ ys }) _ _ (shares-IsMap w (x ∷ xs) (start s) m)
      (run-reordered w p (start s))

-- Go does not say in which order `cleanPools` meets the pools of its map. With running pools, any
-- two orders give the same: both calls return, with the same pools left in the table and under each
-- key, the same number of closed connections, and the same gauges, every label included.
pub clean_pools-reordered :
    (w : World) (s : Server) (order : List (String × Pool))
    → AllRunning s
    → IsMap s.pools
    → Permᴰ s.pools order
    → (a b : Server × Option Gauges) × (clean_pools w s ≡ ok a)
      × (clean_pools w (record s { pools = order }) ≡ ok b)
      × Alike a b
clean_pools-reordered w s order all m p = (
  reported w s.pools s,
  reported w order (record s { pools = order }),
  clean_pools-eq-reported w s s.pools refl all,
  clean_pools-eq-reported w (record s { pools = order }) order refl
      (AllAt-reordered IsRunning p all),
  reported-Alike w s s.pools order refl m p,
)
