-- ===== src/Server/Pool.antt =====
-- server/pool.go, and the methods of server/connection.go that use the pool of the connection.
-- The connections of a pool live in its `heap`, numbered in the order in which they are made, so
-- that a pointer is a number and the pool's list and its channel can share a connection.
pub mod Channel
pub mod Clean
pub mod Invariant
pub mod Keeper
pub mod Lifecycle
pub mod Size
use wsp.Base.{
  ℕ, suc, ◌+◌, ◌-◌, ◌≤◌, ◌<◌, ◌≡◌, refl, Bool, true, false, not, ◌&&◌, List, [], ◌∷◌, ◌++◌, map,
  Option, none, some, length, ltb, leb, ite, ℕ_discrete, arith, if◌then◌else◌,
}
use wsp.Base.Int.{ℤ, pos, negsuc, inc_int}
use wsp.Runtime.{
  Result, ok, panics, blocks, ◌>>=◌, Chan, make_chan, send, receive, close_chan, close_flag,
}
use wsp.Server.Connection.{
  ConnectionStatus, idle, busy, closed, Connection, fresh, close, take, mark_idle,
}
use Prim.Native.String.{String}
use text.Mathlib.Text.{◌==◌ as str_eq}
use wsp.Mulch.{Handshake}

-- An entry that no connection has been made for reads as a closed one.
abbrev pub absent : Connection
absent = record {
  connected = 0;
  status = closed;
  idle_since = 0;
  requests = 0;
  next_response = false;
  sock = false;
}

pub record Pool : Type 0 where
  pub connected : ℕ
  pub handshake : Handshake
  pub min_size : ℤ
  pub idle_timeout : ℕ
  pub id : String
  pub connections : List ℕ
  pub closed_count : ℕ
  pub idle_chan : Chan ℕ
  pub new_conn : Bool
  pub ask_clean : Bool
  pub ask_size : Bool
  pub get_size : Bool
  pub heap : ℕ → Connection
  pub made : ℕ

abbrev pub update : (ℕ → Connection) → ℕ → Connection → ℕ → Connection
update h c v d = ite (ℕ_discrete c d) v (h d)

abbrev pub put : ℕ → Connection → Pool → Pool
put c v p = record p { heap = update p.heap c v }

-- `NewPool`, without the goroutine; `limit` is the longest buffer that the runtime makes.
unfoldable pub new_pool : ℕ → ℕ → ℕ → Handshake → String → Result Pool
new_pool limit now timeout client alt_id = do
  idle_chan ← make_chan limit (inc_int client.max_size)
  ok (record {
    connected = now;
    handshake = client;
    min_size = inc_int client.size;
    idle_timeout = timeout;
    id = if str_eq alt_id "" then client.id else alt_id;
    connections = [];
    closed_count = 0;
    idle_chan = idle_chan;
    new_conn = true;
    ask_clean = true;
    ask_size = true;
    get_size = true;
    heap = λ _. absent;
    made = 0;
  })

-- `Connection.Close` and `Connection.close`
unfoldable pub close_in : ℕ → Pool → Result Pool
close_in c p = do v ← close (p.heap c); ok (put c v p)

-- `Connection.Take`
unfoldable pub take_in : ℕ → Pool → Pool × Bool
take_in c p = let (v, taken) = take (p.heap c) in (put c v p, taken)

-- The second part of `Give`: the check of the capacity and the send.
unfoldable pub offer : ℕ → Pool → Result Pool
offer c p =
    if leb p.idle_chan.cap (length p.idle_chan.buffer)
    then close_in c p
    else (do idle_chan ← send p.idle_chan c; ok (record p { idle_chan = idle_chan }))

-- `Connection.Give`
unfoldable pub give : ℕ → ℕ → Pool → Result Pool
give now c p = elim (p.heap c).status [
  | closed ↦ ok p
  | _ ↦ offer c (put c (mark_idle now (p.heap c)) p)
]

-- The composite literal of `NewConnection`.
abbrev pub allocate : ℕ → Pool → Pool
allocate now p = record p { heap = update p.heap p.made (fresh now); made = suc p.made }

-- `NewConnection`, without the goroutine: the number of the new connection is `p.made`.
unfoldable pub new_connection : ℕ → Pool → Result Pool
new_connection now p = give now p.made (allocate now p)

-- `count > size`
abbrev pub exceeds : ℕ → ℤ → Bool
exceeds count (pos n) = ltb n count
exceeds count (negsuc n) = true

abbrev pub is_closed : ConnectionStatus → Bool
is_closed closed = true
is_closed _ = false

abbrev pub is_idle : ConnectionStatus → Bool
is_idle idle = true
is_idle _ = false

-- Whether `cleanConnection` closes an idle connection, `count` being its place among the idle ones.
abbrev pub is_surplus : Pool → ℕ → ℕ → ℕ → Bool
is_surplus p now c count =
    exceeds count p.min_size && ltb p.idle_timeout (now - (p.heap c).idle_since)

-- `cleanConnection`: the new count, whether the connection is kept, and the pool.
unfoldable pub clean_connection : ℕ → ℕ → ℕ → Pool → Result (ℕ × Bool × Pool)
unfolding close_in
clean_connection now c count p = elim (p.heap c).status [
  | idle ↦ do
    q ← if is_surplus p now c (suc count) then close_in c p else ok p
    ok (suc count, not (is_closed (q.heap c).status), q)
  | s ↦ ok (count, not (is_closed s), p)
]

-- The loop of `clean`; `now` is the clock as it is read at each connection.
unfoldable pub clean_loop : (ℕ → ℕ) → List ℕ → ℕ → List ℕ → Pool → Result Pool
clean_loop now [] count save p = ok (record p { connections = save })
clean_loop now (c ∷ cs) count save p = do
  (count', keep, q) ← clean_connection (now c) c count p
  clean_loop now cs count' (if keep then save ++ c ∷ [] else save)
      (if keep then q else record q { closed_count = suc q.closed_count })

unfoldable pub clean : (ℕ → ℕ) → Pool → Result Pool
unfolding clean_loop
clean now p = clean_loop now p.connections 0 [] p
