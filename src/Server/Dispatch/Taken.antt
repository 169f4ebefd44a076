-- ===== src/Server/Dispatch/Taken.antt =====
-- What `dispatchRequest` of server/server.go leaves of the pools.
use Prim.Native.String.{String}
use wsp.Base.{
  ℕ, zero, suc, ◌<◌, ◌≡◌, refl, ap, inl, inr, List, [], ◌∷◌, none, some, Bool-cases, Option-cases,
  arith, length,
}
use wsp.Base.Maps.{at, AllAt-store, AllAt-at}
use wsp.Server.Connection.{busy}
use wsp.Server.Pool.{Pool, take_in, is_idle}
use wsp.Server.Pool.Lifecycle.{IsRunning}
use wsp.Server.Pool.Lifecycle.Return.{take_front-IsRunning}
use wsp.Server.Dispatch.{Server, Dispatched, served, get_pool, dispatch_request}
use wsp.Server.Dispatch.Register.{AllRunning}
use wsp.Server.Dispatch.Request.{tried, after, dispatch_round, at-after, take_idle, take_other}

-- A connection that is handed out is busy, and its channel has room to take it back.
abbrev pub HasRoom : String → Dispatched → Server → Type 0
HasRoom key (served c) s =
    (q : Pool) × (at s.pools key ≡ some q)
    × ((q.heap c).status ≡ busy)
    × (length q.idle_chan.buffer < q.idle_chan.cap)
HasRoom key _ s = Unit

abbrev Kept : String → Dispatched × Server → Type 0
Kept key r = AllRunning r.1 × HasRoom key r.0 r.1

same_room :
    (c : ℕ) (l : List ℕ) (p : Pool)
    → length l < p.idle_chan.cap
    → length (tried c l p).0.idle_chan.buffer < (tried c l p).0.idle_chan.cap
unfolding take_in
same_room c l p h = h

-- An empty channel leaves the table alone, and so does a missing pool.
dispatch_idle :
    (fuel thread : ℕ) (key : String) (s : Server) (p : Pool)
    → at s.pools key ≡ some p
    → p.idle_chan.buffer ≡ []
    → AllRunning s
    → Kept key (dispatch_request (suc fuel) thread key s)
unfolding dispatch_request get_pool
dispatch_idle fuel thread key s p found e all = elim (Bool-cases p.idle_chan.is_open) [
  | inl o ↦ rw (found, dispatch_request, e, o) (all, tt)
  | inr o ↦ rw (found, dispatch_request, e, o) (all, tt)
]

dispatch_missing :
    (fuel thread : ℕ) (key : String) (s : Server)
    → at s.pools key ≡ none
    → AllRunning s
    → Kept key (dispatch_request (suc fuel) thread key s)
unfolding dispatch_request get_pool
dispatch_missing fuel thread key s missing all = rw (missing, dispatch_request) (all, tt)

-- The table once a connection has been taken out of the channel.
after-AllRunning :
    (thread : ℕ) (key : String) (q : Pool) (s : Server)
    → AllRunning s
    → IsRunning q
    → AllRunning (after thread key q s)
unfolding get_pool
after-AllRunning thread key q s all r = AllAt-store IsRunning s.pools key q all r

dispatch_front :
    (c : ℕ) (l : List ℕ) (fuel thread : ℕ) (key : String) (s : Server) (p : Pool)
    → at s.pools key ≡ some p
    → p.idle_chan.buffer ≡ c ∷ l
    → AllRunning s
    → ((u : Server) → AllRunning u → Kept key (dispatch_request fuel thread key u))
    → Kept key (dispatch_request (suc fuel) thread key s)
dispatch_front c l fuel thread key s p found e all ih =
    let run = AllAt-at IsRunning s.pools key p all found in
    let kept =
      after-AllRunning thread key (tried c l p).0 s all (take_front-IsRunning c l p e run) in
    elim (Bool-cases (is_idle (p.heap c).status)) [
      | inl hit ↦
          let t = take_idle c (record p { idle_chan = record p.idle_chan { buffer = l } }) hit in
          rw (dispatch_round c l fuel thread key s p found e, t.0)
            (
              kept,
              (
                (tried c l p).0,
                at-after thread key (tried c l p).0 s,
                t.1,
                same_room c l p (omega (arith, ap length e, run.inv.fits)),
              ),
            )
      | inr miss ↦
          let t = take_other c (record p { idle_chan = record p.idle_chan { buffer = l } }) miss in
          rw (dispatch_round c l fuel thread key s p found e, t.0)
            (ih (after thread key (tried c l p).0 s) kept)
    ]

dispatch_start :
    (thread : ℕ) (key : String) (s : Server)
    → AllRunning s
    → Kept key (dispatch_request 0 thread key s)
unfolding dispatch_request
dispatch_start thread key s all = (all, tt)

-- `dispatchRequest` keeps every pool running.
pub dispatch_request-Kept :
    (fuel thread : ℕ) (key : String) (s : Server)
    → AllRunning s
    → AllRunning (dispatch_request fuel thread key s).1
      × HasRoom key (dispatch_request fuel thread key s).0 (dispatch_request fuel thread key s).1
dispatch_request-Kept zero thread key s all = dispatch_start thread key s all
dispatch_request-Kept (suc fuel) thread key s all = elim (Option-cases (at s.pools key)) [
  | inl missing ↦ dispatch_missing fuel thread key s missing all
  | inr (p, found) ↦ go p found p.idle_chan.buffer refl (dispatch_request-Kept fuel thread key)
]
  where
    go :
        (p : Pool)
        → at s.pools key ≡ some p
        → (l : List ℕ) → p.idle_chan.buffer ≡ l
        → ((u : Server) → AllRunning u → Kept key (dispatch_request fuel thread key u))
        → Kept key (dispatch_request (suc fuel) thread key s)
    go p found [] e ih = dispatch_idle fuel thread key s p found e all
    go p found (c ∷ l) e ih = dispatch_front c l fuel thread key s p found e all ih
