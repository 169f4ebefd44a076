-- ===== src/Client/Pool.antt =====
-- client/pool.go: the connections of the client to one server. The goroutine of the pool owns the
-- list; each connection has a goroutine, `keepAlive`, that answers for its status.
pub mod Fill
pub mod Keeper
pub mod Removals
pub mod Remove
use wsp.Base.{
  ℕ, zero, suc, ◌+◌, ◌-◌, Bool, true, false, not, ◌&&◌, ◌||◌, List, [], ◌∷◌, ◌++◌, Option, none,
  some, length, ◌==◌, ltb, if◌then◌else◌,
}
use wsp.Base.Int.{ℤ, pos, negsuc, ◌+ℤ◌, ◌-ℤ◌, ltb_ℤ}
use wsp.Runtime.{Result, ok, panics, blocks, ◌>>=◌, close_flag}
use wsp.Client.Config.{Config, RoundRobin, second}

pub data Status : Type 0 where
  connecting idle running : Status

-- A connection; `keeper` says whether `keepAlive` still runs, `channels` whether `setStatus` and
-- `getStatus` are open, `ws` whether the socket is.
pub record Connection : Type 0 where
  pub ref : ℕ
  pub status : Status
  pub keeper : Bool
  pub channels : Bool
  pub ws : Bool

pub record Pool : Type 0 where
  pub connections : List Connection
  pub disconnects : ℕ
  pub is_shut_down : Bool
  pub last_try : ℕ
  pub back_off : ℕ

-- `NewPool`
abbrev pub new_pool : Pool
new_pool = record {
  connections = [];
  disconnects = 0;
  is_shut_down = false;
  last_try = 0;
  back_off = second;
}

-- What `NewConnection` and a successful `Connect` leave.
abbrev pub connected : ℕ → Connection
connected ref = record { ref = ref; status = connecting; keeper = true; channels = true; ws = true }

-- `Connection.Status`, which waits for `keepAlive` to answer.
abbrev pub status_of : Connection → Result Status
status_of c = if c.keeper then ok c.status else blocks

pub record PoolSize : Type 0 where
  pub disconnects : ℕ
  pub connecting_total : ℕ
  pub idle_total : ℕ
  pub running_total : ℕ
  pub total : ℕ
  pub last_conn : ℕ
  pub last_try : ℕ
  pub active : Bool

abbrev pub tally : Status → PoolSize → PoolSize
tally connecting s = record s { connecting_total = suc s.connecting_total }
tally idle s = record s { idle_total = suc s.idle_total }
tally running s = record s { running_total = suc s.running_total }

pub size_loop : List Connection → PoolSize → Result PoolSize
size_loop [] s = ok s
size_loop (c ∷ cs) s = do status ← status_of c; size_loop cs (tally status s)

abbrev pub is_some {ℓ} : {A : Type ℓ} → Option A → Bool
is_some none = false
is_some (some a) = true

-- `size`; `last_conn` is the field `lastConn` of the client.
unfoldable pub size : Config → ℕ → Pool → Result PoolSize
size config last_conn p =
    let s : PoolSize = record {
      disconnects = p.disconnects;
      connecting_total = 0;
      idle_total = 0;
      running_total = 0;
      total = length p.connections;
      last_conn =
          if not p.is_shut_down && is_some config.round_robin then last_conn else p.last_try;
      last_try = p.last_try;
      active = not p.is_shut_down;
    } in
    if p.is_shut_down then ok s else size_loop p.connections s

-- How an attempt to connect ends: it succeeds, the dialer fails, or the greeting cannot be sent.
pub data Attempt : Type 0 where
  succeeds dial_fails greeting_fails : Attempt

-- `Remove`, called while the goroutine of the pool is at its `select` or is not: it sends on the
-- unbuffered channel `conChan`, from which only that `select` receives. Client/Pool/Removals has the
-- goroutines that meet there.
abbrev pub call_remove : Bool → Pool → Result (Unit {0})
call_remove selects p = if p.is_shut_down then ok tt else (if selects then ok tt else blocks)

-- `Connect`, which calls `Remove` after a failed greeting. It is `connector` that connects, and it
-- runs on the goroutine of the pool, which is not at its `select` then, or before that starts.
abbrev pub connect : Attempt → Pool → Result Bool
connect succeeds p = ok true
connect dial_fails p = ok false
connect greeting_fails p = do _ ← call_remove false p; ok false

-- How many connections `connector` wants to open.
unfoldable pub to_create : Config → PoolSize → ℤ
to_create config s =
    let wanted = config.pool_idle_size -ℤ pos s.idle_total in
    let wanted' = if (s.total == 0) && ltb_ℤ wanted (pos 1) then pos 1 else wanted in
    if ltb_ℤ config.pool_max_size (pos s.total +ℤ wanted')
    then config.pool_max_size -ℤ pos s.total
    else wanted'

-- The loop of `fillConnectionPool`, with the connections left to open. The environment decides how
-- the attempts end; the connection that attempt `n` makes has the reference `n`.
pub fill_loop : (ℕ → Attempt) → Config → ℕ → ℕ → Pool → Result Pool
fill_loop attempts config zero n p = ok p
fill_loop attempts config (suc k) n p = do
  success ← connect (attempts n) p
  elim success [
    | false ↦ ok (record p { back_off = p.back_off + config.backoff })
    | true ↦
        fill_loop attempts config k (suc n)
          (record p { connections = p.connections ++ connected n ∷ []; back_off = config.backoff })
  ]

-- A loop `for ; n > 0; n--` makes so many rounds.
abbrev pub rounds : ℤ → ℕ
rounds (pos n) = n
rounds (negsuc n) = 0

abbrev pub is_zero : ℤ → Bool
is_zero (pos n) = n == 0
is_zero (negsuc n) = false

abbrev pub is_nil {ℓ} : {A : Type ℓ} → List A → Bool
is_nil [] = true
is_nil (x ∷ xs) = false

-- What `fillConnectionPool` does in round robin mode before it connects: the new `lastConn`, and
-- whether the client is to restart with the next target afterwards.
abbrev pub round_robin_check : Option RoundRobin → ℕ → ℤ → ℕ → Pool → ℕ × Bool
round_robin_check none now wanted last_conn p = (last_conn, false)
round_robin_check (some r) now wanted last_conn p =
    if is_zero wanted || not (is_nil p.connections)
    then (now, false)
    else (last_conn, ltb r.retry_interval (now - last_conn))

-- What a call of `connector` leaves: the pool, the field `lastConn`, and whether to restart.
pub record Connected : Type 0 where
  pub pool : Pool
  pub last_conn : ℕ
  pub restart : Bool

-- `fillConnectionPool`
unfoldable pub fill_connection_pool :
    (ℕ → Attempt) → Config → ℕ → ℤ → ℕ → ℕ → Pool → Result Connected
unfolding fill_loop
fill_connection_pool attempts config now wanted last_conn next p =
    let (last, restart) = round_robin_check config.round_robin now wanted last_conn p in
    do
      q ← fill_loop attempts config (rounds wanted) next p
      ok (record { pool = q; last_conn = last; restart = restart })

-- The reset at the head of `connector`.
abbrev pub reset_back_off : Config → Pool → Pool
reset_back_off config p =
    if ltb config.max_backoff p.back_off then record p { back_off = config.backoff_reset } else p

-- The rest of `connector`, at the time of a new try.
unfoldable pub try_connect : (ℕ → Attempt) → Config → ℕ → ℕ → ℕ → Pool → Result Connected
try_connect attempts config now last_conn next p = do
  s ← size config last_conn p
  fill_connection_pool attempts config now (to_create config s) last_conn next p

-- `connector`; the connections made are numbered from `next` on. The test `now.Sub(p.lastTry) <
-- p.backOff` is written without the difference, which can be negative.
unfoldable pub connector : (ℕ → Attempt) → Config → ℕ → ℕ → ℕ → Pool → Result Connected
connector attempts config now last_conn next p =
    let q = reset_back_off config p in
    if ltb now (q.last_try + q.back_off)
    then ok (record { pool = q; last_conn = last_conn; restart = false })
    else try_connect attempts config now last_conn next (record q { last_try = now })

-- `Connection.Close`
abbrev pub close : Connection → Result Connection
close c = do
  channels ← close_flag c.channels
  ok (record c { channels = channels; ws = false; keeper = false })

-- One round of the loop of `remove`: whether the connection is kept, and how many were closed.
abbrev pub remove_one : ℕ → Connection → Result (Bool × ℕ)
remove_one ref c = if c.ref == ref then (do _ ← close c; ok (false, 1)) else ok (true, 0)

pub remove_loop : ℕ → List Connection → Result (List Connection × ℕ)
remove_loop ref [] = ok ([], 0)
remove_loop ref (c ∷ cs) = do
  (keep, n) ← remove_one ref c
  (kept, m) ← remove_loop ref cs
  ok (if keep then c ∷ kept else kept, n + m)

-- `remove`
unfoldable pub remove : ℕ → Pool → Result Pool
unfolding remove_loop
remove ref p = do
  (kept, n) ← remove_loop ref p.connections
  ok (record p { connections = kept; disconnects = p.disconnects + n })

-- `Shutdown`; the goroutine of the pool closes the connections when it hears of it.
abbrev pub shut_down : Pool → Pool
shut_down p = record p { is_shut_down = true }

pub close_all : List Connection → Result (List Connection)
close_all [] = ok []
close_all (c ∷ cs) = do d ← close c; ds ← close_all cs; ok (d ∷ ds)
