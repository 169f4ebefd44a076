-- ===== src/Server/Dispatch/Request.antt =====
-- `dispatchRequest` of server/server.go, run while no other goroutine uses the pool.
use Prim.Native.String.{String}
use wsp.Base.{
  ℕ, zero, suc, ◌<◌, ◌≡◌, refl, inl, inr, Bool, true, false, List, [], ◌∷◌, some, Bool-cases, arith,
  length,
}
use wsp.Base.Maps.{at, store, at-store_self}
use wsp.Server.Connection.{busy, Connection, take}
use wsp.Server.Pool.{Pool, take_in, update, is_idle}
use wsp.Server.Pool.Invariant.{update-all}
use wsp.Server.Pool.Channel.{idle_only}
use wsp.Server.Dispatch.{Server, Dispatched, served, refused, waits, get_pool, dispatch_request}

-- What a dispatcher finds: the connection that has been idle in the channel for longest, skipping
-- those that have been closed meanwhile.
abbrev pub outcome_from : List ℕ → Bool → Dispatched
outcome_from [] true = waits
outcome_from [] false = refused
outcome_from (c ∷ rest) is_open = served c

abbrev pub outcome : Pool → Dispatched
outcome p = outcome_from (idle_only p.heap p.idle_chan.buffer) p.idle_chan.is_open

idle_only-update :
    (h : ℕ → Connection) (c : ℕ) (v : Connection) (l : List ℕ)
    → is_idle v.status ≡ is_idle (h c).status
    → idle_only (update h c v) l ≡ idle_only h l
idle_only-update h c v [] e = refl
idle_only-update h c v (d ∷ l) e = ground (arith, idle_only-update h c v l e, same d)
  where
    same : (d : ℕ) → is_idle (update h c v d).status ≡ is_idle (h d).status
    same = update-all (λ d w. is_idle w.status ≡ is_idle (h d).status) h c v (λ _. refl) e

-- A connection that is handed out is marked as busy in the table.
abbrev pub IsTaken : String → Dispatched → Server → Type 0
IsTaken key (served c) s = (q : Pool) × (at s.pools key ≡ some q) × ((q.heap c).status ≡ busy)
IsTaken key _ s = Unit

pub take_idle :
    (c : ℕ) (p : Pool)
    → is_idle (p.heap c).status ≡ true
    → ((take_in c p).1 ≡ true) × (((take_in c p).0.heap c).status ≡ busy)
unfolding take_in take
take_idle c p e = ground arith

pub take_other :
    (c : ℕ) (p : Pool)
    → is_idle (p.heap c).status ≡ false
    → ((take_in c p).1 ≡ false) × (is_idle (take (p.heap c)).0.status ≡ is_idle (p.heap c).status)
unfolding take_in take
take_other c p e = ground arith

-- The pool after a round that takes `c` from the front of the channel, and the server with it.
abbrev pub tried : ℕ → List ℕ → Pool → Pool × Bool
tried c l p = take_in c (record p { idle_chan = record p.idle_chan { buffer = l } })

abbrev pub after : ℕ → String → Pool → Server → Server
after thread key q s = let t = (get_pool thread key s).1 in record t { pools = store t.pools key q }

pub dispatch_round :
    (c : ℕ) (l : List ℕ) (fuel thread : ℕ) (key : String) (s : Server) (p : Pool)
    → at s.pools key ≡ some p
    → p.idle_chan.buffer ≡ c ∷ l
    → dispatch_request (suc fuel) thread key s ≡ (elim (tried c l p).1 [
      | true ↦ (served c, after thread key (tried c l p).0 s)
      | false ↦ dispatch_request fuel thread key (after thread key (tried c l p).0 s)
    ])
unfolding dispatch_request get_pool
dispatch_round c l fuel thread key s p found e = rw (found, dispatch_request, e) refl

pub at-after :
    (thread : ℕ) (key : String) (q : Pool) (s : Server)
    → at (after thread key q s).pools key ≡ some q
unfolding get_pool
at-after thread key q s = at-store_self s.pools key q

dispatch_empty :
    (fuel thread : ℕ) (key : String) (s : Server) (p : Pool)
    → at s.pools key ≡ some p
    → p.idle_chan.buffer ≡ []
    → (dispatch_request (suc fuel) thread key s).0 ≡ outcome_from [] p.idle_chan.is_open
unfolding dispatch_request get_pool
dispatch_empty fuel thread key s p found e = elim (Bool-cases p.idle_chan.is_open) [
  | inl o ↦ rw (found, dispatch_request, e, o) refl
  | inr o ↦ rw (found, dispatch_request, e, o) refl
]

-- What a run of the loop may claim.
abbrev Right : String → List ℕ → Pool → Dispatched × Server → Type 0
Right key l p r =
    (r.0 ≡ outcome_from (idle_only p.heap l) p.idle_chan.is_open) × IsTaken key r.0 r.1

IsTaken-of_empty :
    (key : String) (b : Bool) (r : Dispatched × Server)
    → r.0 ≡ outcome_from [] b
    → IsTaken key r.0 r.1
IsTaken-of_empty key true (d, t) e = rw e tt
IsTaken-of_empty key false (d, t) e = rw e tt

tried_buffer : (c : ℕ) (l : List ℕ) (p : Pool) → (tried c l p).0.idle_chan.buffer ≡ l
unfolding take_in
tried_buffer c l p = refl

-- A connection that could not be taken has the status that it had.
tried-Right :
    (key : String) (c : ℕ) (l : List ℕ) (p : Pool) (r : Dispatched × Server)
    → is_idle (take (p.heap c)).0.status ≡ is_idle (p.heap c).status
    → Right key l (tried c l p).0 r
    → Right key l p r
unfolding take_in
tried-Right key c l p r e h = (rw (← idle_only-update p.heap c (take (p.heap c)).0 l e) h.0, h.1)

dispatch_loop :
    (l : List ℕ) (fuel thread : ℕ) (key : String) (s : Server) (p : Pool)
    → at s.pools key ≡ some p
    → p.idle_chan.buffer ≡ l
    → length l < fuel
    → Right key l p (dispatch_request fuel thread key s)
dispatch_loop l zero thread key s p found e h = elim h [ ]
dispatch_loop [] (suc fuel) thread key s p found e h =
    let r = dispatch_empty fuel thread key s p found e in
    (r, IsTaken-of_empty key p.idle_chan.is_open (dispatch_request (suc fuel) thread key s) r)
dispatch_loop (c ∷ l) (suc fuel) thread key s p found e h =
    elim (Bool-cases (is_idle (p.heap c).status)) [
      | inl yes_idle ↦
          let t =
            take_idle c (record p { idle_chan = record p.idle_chan { buffer = l } }) yes_idle in
          rw (dispatch_round c l fuel thread key s p found e, t.0, yes_idle)
            (refl, ((tried c l p).0, at-after thread key (tried c l p).0 s, t.1))
      | inr not_idle ↦
          let t =
            take_other c (record p { idle_chan = record p.idle_chan { buffer = l } }) not_idle in
          let ih =
            dispatch_loop l fuel thread key (after thread key (tried c l p).0 s) (tried c l p).0
              (at-after thread key (tried c l p).0 s) (tried_buffer c l p) (omega arith) in
          rw (dispatch_round c l fuel thread key s p found e, t.0, not_idle)
            (tried-Right key c l p _ t.1 ih)
    ]

-- With more rounds than the channel holds connections, `dispatchRequest` hands out the connection
-- that has been idle in the channel for longest, and that connection is busy afterwards; those that
-- were closed while they stood in the channel are skipped. Without an idle connection it waits, or
-- turns the request away if the pool has been shut down.
pub dispatch_request_lem :
    (fuel thread : ℕ) (key : String) (s : Server) (p : Pool)
    → at s.pools key ≡ some p
    → length p.idle_chan.buffer < fuel
    → let r = dispatch_request fuel thread key s in (r.0 ≡ outcome p) × IsTaken key r.0 r.1
dispatch_request_lem fuel thread key s p found h =
    dispatch_loop p.idle_chan.buffer fuel thread key s p found refl h
