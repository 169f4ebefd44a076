-- ===== src/Server/Dispatch/Clean/Shares.antt =====
-- What each pool adds to what the loop of `cleanPools` of server/server.go counts.
use Prim.Native.String.{String}
use wsp.Base.{ℕ, ◌+◌, ◌≡◌, refl, ◌∙◌, Bool, true, false, List, [], ◌∷◌, ◌++◌}
use wsp.Base.Maps.{AllAt, add_at}
use wsp.Runtime.{
  Result, ok, panics, blocks, ◌>>=◌, Returns, Returns-bind, Returns-mono, Returns-ok, value_or,
}
use wsp.Server.Pool.{Pool}
use wsp.Server.Pool.Keeper.{PoolSize, is_empty, shut_down, ask_for_size}
use wsp.Server.Pool.Lifecycle.{IsRunning}
use wsp.Server.Pool.Lifecycle.Register.{is_empty-IsRunning, ask_for_size-eq-size}
use wsp.Server.Pool.Lifecycle.Shutdown.{shut_down-IsStopped}
use wsp.Server.Dispatch.{World, Tally, add_sizes, clean_pool, clean_pools_loop}

-- What one pool adds to the tally: it is gone, with so many connections closed, or it is left.
pub data Share : Type 0 where
  gone : ℕ → Share
  left : String → Pool → PoolSize → Share

-- The pool's share, which does not depend on the tally.
unfoldable pub survey : World → String × Pool → Result Share
survey w entry = do
  (empty, q) ← is_empty w.remote w.clock entry.1
  elim empty [
    | true ↦ do r ← shut_down w.remote q; ok (gone r.closed_count)
    | false ↦ do (ps, r) ← ask_for_size w.remote w.now q; ok (left entry.0 r ps)
  ]

unfoldable pub apply : Share → Tally → Tally
apply (gone n) t = record t { closed = t.closed + n }
apply (left key r ps) t = record t {
  kept = t.kept ++ (key, r) ∷ [];
  totals = add_sizes t.totals ps;
  conns_per_pool = add_at ps.total 1 t.conns_per_pool;
}

survey-gone :
    (m : Result Pool) (t : Tally)
    → (do r ← m; ok (record t { closed = t.closed + r.closed_count }))
      ≡ (do d ← (do r ← m; ok (gone r.closed_count)); ok (apply d t))
unfolding apply
survey-gone (ok r) t = refl
survey-gone (panics e) t = refl
survey-gone blocks t = refl

survey-left :
    (key : String) (m : Result (PoolSize × Pool)) (t : Tally)
    → (do
      (ps, r) ← m
      ok (record t {
        kept = t.kept ++ (key, r) ∷ [];
        totals = add_sizes t.totals ps;
        conns_per_pool = add_at ps.total 1 t.conns_per_pool;
      }))
      ≡ (do d ← (do (ps, r) ← m; ok (left key r ps)); ok (apply d t))
unfolding apply
survey-left key (ok r) t = refl
survey-left key (panics e) t = refl
survey-left key blocks t = refl

clean_pool-eq-survey :
    (w : World) (entry : String × Pool) (t : Tally)
    → clean_pool w entry t ≡ (survey w entry >>= λ d. ok (apply d t))
unfolding clean_pool survey
clean_pool-eq-survey w entry t = go (is_empty w.remote w.clock entry.1) refl
  where
    go :
        (m : Result (Bool × Pool))
        → is_empty w.remote w.clock entry.1 ≡ m
        → clean_pool w entry t ≡ (survey w entry >>= λ d. ok (apply d t))
    go (ok (true, q)) e = rw (e, clean_pool, survey) (survey-gone (shut_down w.remote q) t)
    go (ok (false, q)) e =
        rw (e, clean_pool, survey) (survey-left entry.0 (ask_for_size w.remote w.now q) t)
    go (panics x) e = rw (e, clean_pool, survey) refl
    go blocks e = rw (e, clean_pool, survey) refl

survey-Returns :
    (w : World) (entry : String × Pool)
    → IsRunning entry.1
    → Returns (survey w entry) (λ _. Unit {0})
unfolding survey
survey-Returns w entry run =
    Returns-bind (is_empty w.remote w.clock entry.1) _ (λ x. IsRunning x.1) _
      (Returns-mono (is_empty w.remote w.clock entry.1) _ _
        (is_empty-IsRunning w.remote w.clock entry.1 run) (λ x h. h.0))
      λ x r. after x.0 x.1 r
  where
    after :
        (empty : Bool) (q : Pool)
        → IsRunning q
        → Returns
            (elim empty [
              | true ↦ do r ← shut_down w.remote q; ok (gone r.closed_count)
              | false ↦ do (ps, r) ← ask_for_size w.remote w.now q; ok (left entry.0 r ps)
            ])
            (λ _. Unit {0})
    after true q r =
        Returns-bind (shut_down w.remote q) _ _ _ (shut_down-IsStopped w.remote q r) (λ _ _. tt)
    after false q r = rw (ask_for_size-eq-size w.remote w.now q r) tt

unfoldable pub share : World → String × Pool → Share
share w entry = value_or (gone 0) (survey w entry)

clean_pool-eq-share :
    (w : World) (entry : String × Pool) (t : Tally)
    → IsRunning entry.1
    → clean_pool w entry t ≡ ok (apply (share w entry) t)
unfolding share
clean_pool-eq-share w entry t run =
    let (d, e, _) = Returns-ok (survey w entry) (survey-Returns w entry run) in
    clean_pool-eq-survey w entry t ∙ rw (e) refl

-- The loop as a fold over the shares.
unfoldable pub run : World → List (String × Pool) → Tally → Tally
run w [] t = t
run w (entry ∷ rest) t = run w rest (apply (share w entry) t)

pub clean_pools_loop-eq-run :
    (w : World) (pools : List (String × Pool)) (t : Tally)
    → AllAt IsRunning pools
    → clean_pools_loop w pools t ≡ ok (run w pools t)
unfolding clean_pools_loop run
clean_pools_loop-eq-run w [] t all = refl
clean_pools_loop-eq-run w (entry ∷ rest) t (r, all) =
    rw (clean_pool-eq-share w entry t r)
      (clean_pools_loop-eq-run w rest (apply (share w entry) t) all)
