-- ===== src/Client/Pool/Keeper/Kept.antt =====
-- What the goroutine of the client's pool keeps true of its connections.
use wsp.Base.{
  ℕ, zero, suc, ◌+◌, ◌≤◌, ◌≡◌, refl, ◌∙◌, ◌≢◌, inl, inr, Bool, false, List, [], ◌∷◌, ◌++◌, Every,
  Bool-cases, arith, length, ◌==◌, ltb, if◌then◌else◌,
}
use wsp.Base.Int.{pos_part}
use wsp.Runtime.{ok, Returns, Returns-bind, Returns-mono, Returns-and, WhenOk}
use wsp.Client.Config.{Config}
use wsp.Client.Pool.{
  Status, Connection, Pool, Attempt, succeeds, dial_fails, greeting_fails, connected, size,
  size_loop, connector, close_all, fill_loop, fill_connection_pool, try_connect, to_create, rounds,
}
use wsp.Client.Pool.Fill.{AllKept, Filled, fill_loop-Filled, size_loop_counts, to_create_fits}
use wsp.Client.Pool.Remove.{AllLive}
use wsp.Client.Pool.Keeper.{Keeper, update, connects}

pub AllLive-AllKept : (cs : List Connection) → AllLive cs → AllKept cs
AllLive-AllKept [] h = tt
AllLive-AllKept (c ∷ cs) h = (h.0.0, AllLive-AllKept cs h.1)

AllLive-snoc : (cs : List Connection) (n : ℕ) → AllLive cs → AllLive (cs ++ connected n ∷ [])
AllLive-snoc [] n h = ((refl, refl), tt)
AllLive-snoc (c ∷ cs) n h = (h.0, AllLive-snoc cs n h.1)

fill_step-AllLive :
    (attempts : ℕ → Attempt) (config : Config) (k n : ℕ) (p : Pool) (a : Attempt)
    → attempts n ≡ a
    → AllLive p.connections
    → WhenOk
        (fill_loop attempts config k
          (suc n)
          (record p { connections = p.connections ++ connected n ∷ []; back_off = config.backoff }))
        (λ q. AllLive q.connections)
    → WhenOk (fill_loop attempts config (suc k) n p) (λ q. AllLive q.connections)
unfolding fill_loop
fill_step-AllLive attempts config k n p succeeds e live ih = rw e ih
fill_step-AllLive attempts config k n p dial_fails e live ih = rw e live
fill_step-AllLive attempts config k n p greeting_fails e live ih =
    rw e (elim (Bool-cases p.is_shut_down) [ inl down ↦ rw down live | inr up ↦ rw up tt ])

fill_loop-AllLive :
    (attempts : ℕ → Attempt) (config : Config) (k n : ℕ) (p : Pool)
    → AllLive p.connections
    → WhenOk (fill_loop attempts config k n p) (λ q. AllLive q.connections)
unfolding fill_loop
fill_loop-AllLive attempts config zero n p live = live
fill_loop-AllLive attempts config (suc k) n p live =
    fill_step-AllLive attempts config k n p (attempts n) refl live
      (fill_loop-AllLive attempts config k (suc n) _ (AllLive-snoc p.connections n live))

pub size_total :
    (config : Config) (last_conn : ℕ) (p : Pool)
    → AllLive p.connections
    → Returns (size config last_conn p) (λ t. t.total ≡ length p.connections)
unfolding size
size_total config last_conn p live = elim (Bool-cases p.is_shut_down) [
  | inl down ↦ rw down refl
  | inr up ↦ rw up (
      Returns-mono (size_loop p.connections _) _ _
        (size_loop_counts p.connections _ (AllLive-AllKept p.connections live)) λ t h. h.0)
]

-- The connections of a pool are live, and at most so many as configured; `down` says whether it
-- has been shut down.
pub record IsKept (config : Config) (down : Bool) (p : Pool) : Type 0 where
  pub flag : p.is_shut_down ≡ down
  pub live : AllLive p.connections
  pub within : length p.connections ≤ pos_part config.pool_max_size

try_connect-IsKept :
    (attempts : ℕ → Attempt) (config : Config) (now last_conn next : ℕ) (down : Bool) (p : Pool)
    → ((i : ℕ) → attempts i ≢ greeting_fails)
    → IsKept config down p
    → Returns (try_connect attempts config now last_conn next p) (λ r. IsKept config down r.pool)
unfolding try_connect fill_connection_pool
try_connect-IsKept attempts config now last_conn next down p greets k =
    Returns-bind (size config last_conn p) _ _ _ (size_total config last_conn p k.live) λ s h.
      let n = rounds (to_create config s) in
      Returns-bind (fill_loop attempts config n next p) _ _ _
        (Returns-and (fill_loop attempts config n next p) (Filled config n p)
          (λ q. AllLive q.connections) (fill_loop-Filled attempts config n next p greets)
          (fill_loop-AllLive attempts config n next p k.live))
        λ q f. record {
          flag = f.0.flag ∙ k.flag;
          live = f.1;
          within = omega (arith, f.0.bound, k.within, h, to_create_fits config s);
        }

-- A call of `connector` returns and keeps the connections live and few enough.
connector-IsKept :
    (attempts : ℕ → Attempt) (config : Config) (now last_conn next : ℕ) (down : Bool) (p : Pool)
    → ((i : ℕ) → attempts i ≢ greeting_fails)
    → IsKept config down p
    → Returns (connector attempts config now last_conn next p) (λ r. IsKept config down r.pool)
unfolding connector
connector-IsKept attempts config now last_conn next down p greets k =
    elim (Bool-cases (ltb config.max_backoff p.back_off)) [
      | inl large ↦ rw large (
          both (record p { back_off = config.backoff_reset })
            (record { flag = k.flag; live = k.live; within = k.within }))
      | inr small ↦ rw small (both p k)
    ]
  where
    both :
        (q : Pool)
        → IsKept config down q
        → Returns
            (if ltb now (q.last_try + q.back_off)
              then ok (record { pool = q; last_conn = last_conn; restart = false })
              else try_connect attempts config now last_conn next (record q { last_try = now }))
            (λ r. IsKept config down r.pool)
    both q k = elim (Bool-cases (ltb now (q.last_try + q.back_off))) [
      | inl early ↦ rw early k
      | inr due ↦ rw due (
          try_connect-IsKept attempts config now last_conn next down (record q { last_try = now })
            greets (record { flag = k.flag; live = k.live; within = k.within }))
    ]

pub connects-IsKept :
    (attempts : ℕ → Attempt) (config : Config) (now : ℕ) (down : Bool) (k : Keeper)
    → ((i : ℕ) → attempts i ≢ greeting_fails)
    → IsKept config down k.pool
    → Returns
        (connects attempts config now k)
        (λ k'. IsKept config down k'.pool × (k'.is_running ≡ k.is_running))
unfolding connects
connects-IsKept attempts config now down k greets h =
    Returns-bind (connector attempts config now k.last_conn k.next k.pool) _ _ _
      (connector-IsKept attempts config now k.last_conn k.next down k.pool greets h)
      λ r h'. (h', refl)

pub AllLive-update :
    (status : Status) (ref : ℕ) (cs : List Connection)
    → AllLive cs
    → AllLive (update (λ c. record c { status = status }) ref cs)
AllLive-update status ref [] h = tt
AllLive-update status ref (c ∷ cs) (l, h) = elim (Bool-cases (c.ref == ref)) [
  | inl e ↦ rw e (l, AllLive-update status ref cs h)
  | inr e ↦ rw e (l, AllLive-update status ref cs h)
]

pub length-update :
    (f : Connection → Connection) (ref : ℕ) (cs : List Connection)
    → length (update f ref cs) ≡ length cs
length-update f ref [] = refl
length-update f ref (c ∷ cs) = omega (arith, length-update f ref cs)

-- The connection is closed: its channels, its socket and its goroutine are gone.
abbrev pub AllClosed : List Connection → Type 0
AllClosed = Every (λ c. (c.keeper ≡ false) × (c.channels ≡ false) × (c.ws ≡ false))

pub close_all-AllClosed :
    (cs : List Connection)
    → AllLive cs
    → Returns (close_all cs) (λ ds. AllClosed ds × (length ds ≡ length cs))
unfolding close_all
close_all-AllClosed [] live = (tt, refl)
close_all-AllClosed (c ∷ cs) (l, live) = rw l.1 (
    Returns-bind (close_all cs) _ _ _ (close_all-AllClosed cs live)
      λ ds h. (((refl, refl, refl), h.0), omega (arith, h.1)))
