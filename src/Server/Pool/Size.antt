-- ===== src/Server/Pool/Size.antt =====
-- The counts that `size` of server/pool.go reports.
use Prim.Native.String.{String}
use wsp.Base.{
  ℕ, ◌+◌, ◌≡◌, refl, ◌≢◌, inl, inr, Bool, true, false, List, [], ◌∷◌, ◌++◌, In, length,
  length-append, arith, if◌then◌else◌,
}
use wsp.Server.Connection.{ConnectionStatus, busy, closed, Connection}
use wsp.Server.Pool.{Pool, is_closed}
use wsp.Server.Pool.Keeper.{PoolSize, conn_stats, tally, size_loop, size}
use wsp.Server.Pool.Clean.{idle_in}

abbrev pub is_busy : ConnectionStatus → Bool
is_busy busy = true
is_busy _ = false

-- How many of the connections are busy.
abbrev pub busy_in : (ℕ → Connection) → List ℕ → ℕ
busy_in h [] = 0
busy_in h (c ∷ cs) = (if is_busy (h c).status then 1 else 0) + busy_in h cs

-- No connection of the list is closed.
abbrev pub AllLive : Pool → Type 0
AllLive p = (c : ℕ) → In c p.connections → (p.heap c).status ≢ closed

module _ (remote : ℕ → String) (now : ℕ) (p : Pool) where
  record Counts (cs : List ℕ) (s r : PoolSize) : Type 0 where
    total : r.total ≡ s.total
    closed_total : r.closed_total ≡ s.closed_total
    idle_total : r.idle_total ≡ s.idle_total + idle_in p.heap cs
    busy_total : r.busy_total ≡ s.busy_total + busy_in p.heap cs
    listed : length r.conns ≡ length s.conns + length cs

  size_loop-Counts : (cs : List ℕ) (s : PoolSize) → Counts cs s (size_loop remote now p cs s)
  unfolding size_loop
  size_loop-Counts [] s = ground arith
  size_loop-Counts (c ∷ cs) s = ground (
    arith,
    size_loop-Counts cs
        (tally (p.heap c).status (record s { conns = s.conns ++ conn_stats remote now p c ∷ [] })),
    length-append s.conns (conn_stats remote now p c ∷ []),
  )

-- How many of the connections are closed.
abbrev pub closed_in : (ℕ → Connection) → List ℕ → ℕ
closed_in h [] = 0
closed_in h (c ∷ cs) = (if is_closed (h c).status then 1 else 0) + closed_in h cs

partition :
    (h : ℕ → Connection) (cs : List ℕ) → idle_in h cs + busy_in h cs + closed_in h cs ≡ length cs
partition h [] = omega arith
partition h (c ∷ cs) = ground (arith, partition h cs)

closed_in-AllLive :
    (h : ℕ → Connection) (cs : List ℕ)
    → ((c : ℕ) → In c cs → (h c).status ≢ closed)
    → closed_in h cs ≡ 0
closed_in-AllLive h [] live = refl
closed_in-AllLive h (c ∷ cs) live =
    ground (arith, closed_in-AllLive h cs (λ d m. live d (inr m)), live c (inl refl))

-- `size` lists each connection once, and counts it under its status: the idle and the busy ones are
-- all but those that have been closed since the pool was cleaned last.
pub size_counts :
    (remote : ℕ → String) (now : ℕ) (p : Pool)
    → let s = size remote now p in
      (s.total ≡ length p.connections)
      × (length s.conns ≡ s.total)
      × (s.idle_total ≡ idle_in p.heap p.connections)
      × (s.busy_total ≡ busy_in p.heap p.connections)
      × (s.idle_total + s.busy_total + closed_in p.heap p.connections ≡ s.total)
      × (s.closed_total ≡ p.closed_count)
unfolding size
size_counts remote now p =
    let c = size_loop-Counts remote now p p.connections (record {
      total = length p.connections;
      idle_total = 0;
      busy_total = 0;
      closed_total = p.closed_count;
      conns = [];
    }) in
    let parts = partition p.heap p.connections in
    (
      c.total,
      omega (arith, c.listed, c.total),
      omega (arith, c.idle_total),
      omega (arith, c.busy_total),
      omega (arith, c.total, c.idle_total, c.busy_total, parts),
      c.closed_total,
    )

-- After a cleaning no listed connection is closed.
pub size-AllLive :
    (remote : ℕ → String) (now : ℕ) (p : Pool)
    → AllLive p
    → (size remote now p).idle_total + (size remote now p).busy_total ≡ (size remote now p).total
size-AllLive remote now p live =
    omega (arith, (size_counts remote now p).4, closed_in-AllLive p.heap p.connections live)
