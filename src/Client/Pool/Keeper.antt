-- ===== src/Client/Pool/Keeper.antt =====
-- `Start` of client/pool.go: the goroutine of the pool takes one message after the other, and the
-- connections change beside it.
pub mod Hang
pub mod Kept
pub mod Run
use wsp.Base.{
  ℕ, suc, ◌+◌, ◌≤◌, ◌≡◌, refl, ◌≢◌, inl, inr, Bool, true, false, List, [], ◌∷◌, ◌++◌, Option, none,
  some, Every, Bool-cases, arith, length, ◌==◌, if◌then◌else◌,
}
use wsp.Runtime.{Result, ok, panics, blocks, ◌>>=◌}
use wsp.Client.Config.{Config}
use wsp.Client.Pool.{
  Status, Connection, Pool, PoolSize, Attempt, new_pool, size, connector, remove, close_all,
  shut_down,
}

-- The goroutine, what it has answered, the number of the next connection, and how often it has
-- asked the client to restart.
pub record Keeper : Type 0 where
  pub pool : Pool
  pub last_conn : ℕ
  pub next : ℕ
  pub is_running : Bool
  pub sizes : List PoolSize
  pub restarts : ℕ

-- What happens to a pool: its goroutine receives from `done`, the ticker, `getSize` or `conChan`;
-- `Shutdown` is called; `serve` sets the status of its connection; a ping fails in `keepAlive`.
pub data Event : Type 0 where
  done shuts_down get_size : Event
  ticks : ℕ → Event
  con_chan : ℕ → Option ℕ → Event
  set_status : ℕ → Status → Event
  ping_fails : ℕ → Event

-- Change the connection with the reference.
abbrev pub update : (Connection → Connection) → ℕ → List Connection → List Connection
update f ref [] = []
update f ref (c ∷ cs) = (if c.ref == ref then f c else c) ∷ update f ref cs

abbrev pub on_connections : (List Connection → List Connection) → Keeper → Keeper
on_connections f k = record k { pool = record k.pool { connections = f k.pool.connections } }

-- A call of `connector` by the goroutine; no attempt is numbered twice.
unfoldable pub connects : (ℕ → Attempt) → Config → ℕ → Keeper → Result Keeper
connects attempts config now k = do
  r ← connector attempts config now k.last_conn k.next k.pool
  ok (record k {
    pool = r.pool;
    last_conn = r.last_conn;
    next = suc (k.next + length r.pool.connections);
    restarts = if r.restart then suc k.restarts else k.restarts;
  })

-- The case of `conChan`: `nil` asks for more connections.
abbrev pub on_con_chan : (ℕ → Attempt) → Config → ℕ → Option ℕ → Keeper → Result Keeper
on_con_chan attempts config now none k = connects attempts config now k
on_con_chan attempts config now (some ref) k = do p ← remove ref k.pool; ok (record k { pool = p })

-- The `select` of the loop, and what goes on beside it.
unfoldable pub on_event : (ℕ → Attempt) → Config → Event → Keeper → Result Keeper
on_event attempts config done k = do
  cs ← close_all k.pool.connections
  ok (record k { pool = record k.pool { connections = cs }; is_running = false })
on_event attempts config shuts_down k = ok (record k { pool = shut_down k.pool })
on_event attempts config get_size k = do
  s ← size config k.last_conn k.pool
  ok (record k { sizes = k.sizes ++ s ∷ [] })
on_event attempts config (ticks now) k = connects attempts config now k
on_event attempts config (con_chan now ref) k = on_con_chan attempts config now ref k
on_event attempts config (set_status ref status) k =
    ok (on_connections (update (λ c. record c { status = status }) ref) k)
on_event attempts config (ping_fails ref) k =
    ok (on_connections (update (λ c. record c { keeper = false }) ref) k)

-- Events while the goroutine runs; once it has returned, the rest is not handled.
unfoldable pub keep : (ℕ → Attempt) → Config → List Event → Keeper → Result Keeper
keep attempts config [] k = ok k
keep attempts config (e ∷ es) k =
    if k.is_running
    then (do k' ← on_event attempts config e k; keep attempts config es k')
    else ok k

-- `NewPool` and `Start`, up to the loop; `last_conn` is the field of the client.
unfoldable pub start : (ℕ → Attempt) → Config → ℕ → ℕ → Result Keeper
start attempts config now last_conn = connects attempts config now (record {
  pool = new_pool;
  last_conn = last_conn;
  next = 0;
  is_running = true;
  sizes = [];
  restarts = 0;
})
