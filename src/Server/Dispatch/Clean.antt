-- ===== src/Server/Dispatch/Clean.antt =====
-- `cleanPools` and `shutdown` of server/server.go.
pub mod Order
pub mod Shares
pub mod Tables
pub mod Tallies
use Prim.Native.String.{String}
use wsp.Base.{
  Every, ℕ, suc, ◌+◌, ◌<◌, ◌≡◌, refl, sym, ap, ◌∙◌, Bool, true, false, List, [], ◌∷◌, ◌++◌, Option,
  none, some, arith, length, length-append, ltb, ◌==◌,
}
use mathlib.Core.Path.{subst}
use wsp.Base.Maps.{AllAt, add_at}
use wsp.Runtime.{ok, ◌>>=◌, Returns, Returns-bind}
use wsp.Server.Pool.{Pool}
use wsp.Server.Pool.Keeper.{is_empty, shut_down, ask_for_size, size}
use wsp.Server.Pool.Size.{AllLive, size_counts, size-AllLive}
use wsp.Server.Pool.Lifecycle.{IsRunning}
use wsp.Server.Pool.Lifecycle.Register.{is_empty-IsRunning, ask_for_size-eq-size}
use wsp.Server.Pool.Lifecycle.Shutdown.{IsStopped, shut_down-IsStopped}
use wsp.Server.Metrics.{Gauges, save_metrics}
use wsp.Server.Metrics.Total.{
  DistinctKeys, add_at-DistinctKeys, total_where, total_where-add_at, sum_values,
  sum_values-save_metrics,
}
use wsp.Server.Dispatch.{
  Server, World, Tally, no_sizes, add_sizes, clean_pool, clean_pools_loop, clean_pools, shut_pools,
}
use wsp.Server.Dispatch.Register.{AllRunning}

-- A pool that `cleanPools` keeps.
abbrev pub IsKept : Pool → Type 0
IsKept p = IsRunning p × AllLive p × (0 < length p.connections)

-- The connections of all pools.
abbrev pub connections_of : List (String × Pool) → ℕ
connections_of [] = 0
connections_of (entry ∷ rest) = length entry.1.connections + connections_of rest

AllAt-append :
    {V : Type 0} (P : V → Type 0) (xs ys : List (String × V))
    → AllAt P xs
    → AllAt P ys
    → AllAt P (xs ++ ys)
AllAt-append P [] ys h k = k
AllAt-append P (x ∷ xs) ys (h, hs) k = (h, AllAt-append P xs ys hs k)

connections_of-append :
    (xs ys : List (String × Pool))
    → connections_of (xs ++ ys) ≡ connections_of xs + connections_of ys
connections_of-append [] ys = omega arith
connections_of-append (x ∷ xs) ys = omega (arith, connections_of-append xs ys)

-- What the loop of `cleanPools` has added up is right for the pools it has kept.
record IsRight (t : Tally) : Type 0 where
  kept : AllAt IsKept t.kept
  keys : DistinctKeys t.conns_per_pool
  counted : total_where (ltb 0) t.conns_per_pool ≡ length t.kept
  total : t.totals.total ≡ connections_of t.kept
  split : t.totals.idle_total + t.totals.busy_total ≡ t.totals.total

clean_pool-IsRight :
    (w : World) (entry : String × Pool) (t : Tally)
    → IsRunning entry.1
    → IsRight t
    → Returns (clean_pool w entry t) IsRight
unfolding clean_pool
clean_pool-IsRight w entry t r v =
    Returns-bind (is_empty w.remote w.clock entry.1) _ _ IsRight
      (is_empty-IsRunning w.remote w.clock entry.1 r)
      λ x (run, live, answer). after x.0 x.1 run live answer
  where
    after :
        (empty : Bool) (q : Pool)
        → IsRunning q
        → AllLive q
        → empty ≡ (length q.connections == 0)
        → Returns
            (elim empty [
              | true ↦ do
                s ← shut_down w.remote q
                ok (record t { closed = t.closed + s.closed_count })
              | false ↦ do
                (ps, s) ← ask_for_size w.remote w.now q
                ok (record t {
                  kept = t.kept ++ (entry.0, s) ∷ [];
                  totals = add_sizes t.totals ps;
                  conns_per_pool = add_at ps.total 1 t.conns_per_pool;
                })
            ])
            IsRight
    after true q run live answer =
        Returns-bind (shut_down w.remote q) _ IsStopped IsRight (shut_down-IsStopped w.remote q run)
          λ s _. record {
            kept = v.kept;
            keys = v.keys;
            counted = v.counted;
            total = v.total;
            split = v.split;
          }
    after false q run live answer = rw (ask_for_size-eq-size w.remote w.now q run) (record {
      kept = AllAt-append IsKept t.kept ((entry.0, q) ∷ []) v.kept ((run, live, nonempty), tt);
      keys = add_at-DistinctKeys (size w.remote w.now q).total 1 t.conns_per_pool v.keys;
      counted = ground (
        arith,
        v.counted,
        total,
        nonempty,
        total_where-add_at (ltb 0) (size w.remote w.now q).total 1 t.conns_per_pool,
        length-append t.kept ((entry.0, q) ∷ []),
      );
      total = omega (arith, v.total, total, connections_of-append t.kept ((entry.0, q) ∷ []));
      split = omega (arith, v.split, size-AllLive w.remote w.now q live);
    })
      where
        nonempty : 0 < length q.connections
        nonempty = ground (arith, answer)

        total : (size w.remote w.now q).total ≡ length q.connections
        total = (size_counts w.remote w.now q).0

clean_pools_loop-IsRight :
    (w : World) (pools : List (String × Pool)) (t : Tally)
    → AllAt IsRunning pools
    → IsRight t
    → Returns (clean_pools_loop w pools t) IsRight
unfolding clean_pools_loop
clean_pools_loop-IsRight w [] t all v = v
clean_pools_loop-IsRight w (entry ∷ rest) t (r, all) v =
    Returns-bind (clean_pool w entry t) _ IsRight IsRight (clean_pool-IsRight w entry t r v)
      λ t' v'. clean_pools_loop-IsRight w rest t' all v'

-- What the gauges say of the pools that are left.
abbrev pub Agree : Server → Option Gauges → Type 0
Agree s none = s.pools ≡ []
Agree s (some g) =
    (g.pools ≡ length s.pools)
    × (sum_values g.pool_conns ≡ length s.pools)
    × (g.total ≡ connections_of s.pools)
    × (g.idle + g.busy ≡ g.total)

-- The report that `cleanPools` makes of what its loop has added up.
abbrev pub report : Server → Tally → Server × Option Gauges
report s t = (
  record s { pools = t.kept; closed = t.closed },
  some (
      save_metrics (length t.kept)
        (record t.totals { closed_total = t.totals.closed_total + t.closed }) t.conns_per_pool),
)

report-Agree : (s : Server) (t : Tally) → IsRight t → Agree (report s t).0 (report s t).1
unfolding save_metrics
report-Agree s t v = (
  refl,
  sum_values-save_metrics (length t.kept)
        (record t.totals { closed_total = t.totals.closed_total + t.closed }) t.conns_per_pool
        v.keys
      ∙ v.counted,
  v.total,
  v.split,
)

pub clean_pools-Agree :
    (w : World) (s : Server)
    → AllRunning s
    → Returns (clean_pools w s) (λ r. AllAt IsKept r.0.pools × Agree r.0 r.1)
unfolding clean_pools
clean_pools-Agree w s all = go s.pools refl all
  where
    go :
        (l : List (String × Pool))
        → s.pools ≡ l
        → AllAt IsRunning l
        → Returns (clean_pools w s) (λ r. AllAt IsKept r.0.pools × Agree r.0 r.1)
    go [] e _ = rw (e, clean_pools) (subst (AllAt IsKept) (sym e) tt, e)
    go (entry ∷ rest) e h =
        rw (e, clean_pools)
          (Returns-bind (clean_pools_loop w (entry ∷ rest) start) _ IsRight _
            (clean_pools_loop-IsRight w (entry ∷ rest) start h right)
            λ t v. (v.kept, report-Agree s t v))
      where
        start : Tally
        start = record { kept = []; closed = s.closed; totals = no_sizes; conns_per_pool = [] }

        right : IsRight start
        right = record { kept = tt; keys = tt; counted = refl; total = refl; split = refl }

-- The loop of `shutdown` returns, and stops every pool.
pub shut_pools-IsStopped :
    (w : World) (pools : List (String × Pool))
    → AllAt IsRunning pools
    → Returns (shut_pools w pools) (λ qs. (length qs ≡ length pools) × Every IsStopped qs)
unfolding shut_pools
shut_pools-IsStopped w [] all = (refl, tt)
shut_pools-IsStopped w (entry ∷ rest) (r, all) =
    Returns-bind (shut_down w.remote entry.1) _ IsStopped _ (shut_down-IsStopped w.remote entry.1 r)
      λ q st.
        Returns-bind (shut_pools w rest) _ _ _ (shut_pools-IsStopped w rest all)
          λ qs h. (ap suc h.0, (st, h.1))
