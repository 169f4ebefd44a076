-- ===== src/Server/Pool/Keeper.antt =====
-- server/pool.go: the goroutine of a pool, which answers the requests that come over the control
-- channels one at a time, and the methods that other goroutines call and that wait for its answer.
use Prim.Native.String.{String}
use wsp.Base.{
  ℕ, zero, suc, ◌+◌, ◌*◌, ◌/◌, ◌^◌, Bool, true, false, List, [], ◌∷◌, ◌++◌, none, some, length,
  ◌==◌, if◌then◌else◌,
}
use wsp.Base.Int.{ℤ, pos, negsuc, sub_ℕ}
use wsp.Runtime.{
  Result, ok, panics, ◌>>=◌, send, receive, close_chan, close_flag, nil_dereference, send_on_closed,
}
use wsp.Server.Connection.{ConnectionStatus, idle, busy, closed}
use wsp.Server.Pool.{Pool, is_idle, close_in, clean, new_connection}

pub record ConnStats : Type 0 where
  pub remote : String
  pub requests : ℕ
  pub connected : ℕ
  pub idle_for : ℤ

pub record PoolSize : Type 0 where
  pub total : ℕ
  pub idle_total : ℕ
  pub busy_total : ℕ
  pub closed_total : ℕ
  pub conns : List ConnStats

abbrev round_magnitude : ℕ → ℕ
round_magnitude d = (d + 5 * 10 ^ 8) / 10 ^ 9 * 10 ^ 9

-- `Round(time.Second)` of a duration in nanoseconds, which rounds halves away from zero.
abbrev pub round_second : ℤ → ℤ
round_second (pos d) = pos (round_magnitude d)
round_second (negsuc d) = sub_ℕ 0 (round_magnitude (suc d))

-- One round of the loop of `size`; `remote` is the address of the socket of a connection.
abbrev pub conn_stats : (ℕ → String) → ℕ → Pool → ℕ → ConnStats
conn_stats remote now p c = record {
  remote = remote c;
  requests = (p.heap c).requests;
  connected = (p.heap c).connected;
  idle_for = round_second (sub_ℕ now (p.heap c).idle_since);
}

abbrev pub tally : ConnectionStatus → PoolSize → PoolSize
tally idle s = record s { idle_total = suc s.idle_total }
tally busy s = record s { busy_total = suc s.busy_total }
tally closed s = s

unfoldable pub size_loop : (ℕ → String) → ℕ → Pool → List ℕ → PoolSize → PoolSize
size_loop remote now p [] s = s
size_loop remote now p (c ∷ cs) s =
    size_loop remote now p cs
      (tally (p.heap c).status (record s { conns = s.conns ++ conn_stats remote now p c ∷ [] }))

-- `size`
unfoldable pub size : (ℕ → String) → ℕ → Pool → PoolSize
unfolding size_loop
size remote now p = size_loop remote now p p.connections (record {
  total = length p.connections;
  idle_total = 0;
  busy_total = 0;
  closed_total = p.closed_count;
  conns = [];
})

-- The loop of `cleanIdleChan`, with the rounds left.
unfoldable pub rotate : ℕ → Pool → Result Pool
rotate zero p = ok p
rotate (suc i) p = do
  (front, ch) ← receive p.idle_chan
  elim front [
    | none ↦ panics nil_dereference
    | some c ↦ do
      ch' ← if is_idle (p.heap c).status then send ch c else ok ch
      rotate i (record p { idle_chan = ch' })
  ]

-- `cleanIdleChan`
unfoldable pub clean_idle_chan : Pool → Result Pool
unfolding rotate
clean_idle_chan p = rotate (length p.idle_chan.buffer) p

unfoldable pub close_all : List ℕ → Pool → Result Pool
close_all [] p = ok p
close_all (c ∷ cs) p = do q ← close_in c p; close_all cs q

-- `shutdown`, which runs when the goroutine of the pool ends.
unfoldable pub shutdown : Pool → Result Pool
shutdown p = do
  q ← close_all p.connections p
  ask_clean ← close_flag q.ask_clean
  ask_size ← close_flag q.ask_size
  get_size ← close_flag q.get_size
  idle_chan ← close_chan q.idle_chan
  ok (record q {
    ask_clean = ask_clean;
    ask_size = ask_size;
    get_size = get_size;
    idle_chan = idle_chan;
  })

-- What the `select` of `keepRunning` can receive.
pub data Message : Type 0 where
  clean_asked : (ℕ → ℕ) → Message
  size_asked : ℕ → Message
  new_conn_came : (ℕ → ℕ) → ℕ → Message
  new_conn_closed : Message

-- What it sends on `getSize`.
pub data Reply : Type 0 where
  sizes : PoolSize → Reply
  no_reply : Reply

abbrev pub only_total : ℕ → PoolSize
only_total n = record { total = n; idle_total = 0; busy_total = 0; closed_total = 0; conns = [] }

-- One round of `keepRunning`.
unfoldable pub keep_running : (ℕ → String) → Message → Pool → Result (Reply × Pool)
keep_running remote (clean_asked now) p = do
  q ← clean now p
  ok (sizes (only_total (length q.connections)), q)
keep_running remote (size_asked now) p = ok (sizes (size remote now p), p)
keep_running remote (new_conn_came now c) p = do
  q ← clean now p
  ok (no_reply, record q { connections = q.connections ++ c ∷ [] })
keep_running remote new_conn_closed p = do q ← shutdown p; ok (no_reply, q)

-- A send on a control channel that has been closed.
abbrev pub ask : Bool → Result (Unit {0})
ask true = ok tt
ask false = panics send_on_closed

abbrev pub total_of : Reply → ℕ
total_of (sizes s) = s.total
total_of no_reply = 0

-- `IsEmpty`
unfoldable pub is_empty : (ℕ → String) → (ℕ → ℕ) → Pool → Result (Bool × Pool)
is_empty remote now p = do
  _ ← ask p.ask_clean
  (reply, q) ← keep_running remote (clean_asked now) p
  ok (total_of reply == 0, q)

-- `Size`
unfoldable pub ask_for_size : (ℕ → String) → ℕ → Pool → Result (PoolSize × Pool)
ask_for_size remote now p = do
  _ ← ask p.ask_size
  (reply, q) ← keep_running remote (size_asked now) p
  elim reply [ sizes s ↦ ok (s, q) | no_reply ↦ panics nil_dereference ]

-- `Register`; the connection is made at the time `now`.
unfoldable pub register : (ℕ → String) → ℕ → (ℕ → ℕ) → Pool → Result Pool
register remote now clock p = do
  q ← clean_idle_chan p
  r ← new_connection now q
  _ ← ask r.new_conn
  (_, t) ← keep_running remote (new_conn_came clock q.made) r
  ok t

-- `Shutdown`: closing `newConn` ends the goroutine.
unfoldable pub shut_down : (ℕ → String) → Pool → Result Pool
shut_down remote p = do
  new_conn ← close_flag p.new_conn
  (_, q) ← keep_running remote new_conn_closed (record p { new_conn = new_conn })
  ok q
