-- ===== src/Server/Pool/Lifecycle/Return.antt =====
-- A connection that a request has used goes back to its pool, or is closed: `Give` and `Close` of
-- server/connection.go, on a running pool.
use wsp.Base.{
  ℕ, ◌<◌, ◌≡◌, refl, ap, ◌≢◌, true, false, List, [], ◌∷◌, ◌++◌, length, leb, lt→ltb, arith,
}
use wsp.Runtime.{Returns, Returns-mono, Returns-and, Returns-both}
use wsp.Server.Connection.{idle, closed, mark_idle, shut, close-eq-shut}
use wsp.Server.Pool.{Pool, put, close_in, take_in, offer, give}
use wsp.Server.Pool.Invariant.{Inv, update_self, give_of_live, give-Inv, take_in-Inv, close_in-Inv}
use wsp.Server.Pool.Lifecycle.{IsRunning, Moved, give-Moved, close_in-Moved, Moved-IsRunning}

pub give-IsRunning : (now c : ℕ) (p : Pool) → IsRunning p → Returns (give now c p) IsRunning
give-IsRunning now c p run =
    Returns-mono (give now c p) _ _
      (Returns-and (give now c p) (Inv []) (Moved p) (give-Inv [] now c p run.inv)
        (give-Moved now c p))
      λ q h. Moved-IsRunning p q run h.0 h.1

pub close_in-IsRunning : (c : ℕ) (p : Pool) → IsRunning p → Returns (close_in c p) IsRunning
close_in-IsRunning c p run =
    Returns-mono (close_in c p) _ _
      (Returns-and (close_in c p) (Inv []) (Moved p) (close_in-Inv [] p c run.inv)
        (close_in-Moved c p))
      λ q h. Moved-IsRunning p q run h.0 h.1

take_in-Moved : (c : ℕ) (p : Pool) → Moved p (take_in c p).0
unfolding take_in
take_in-Moved c p = refl

-- Taking the oldest connection out of the channel.
pub take_front-IsRunning :
    (c : ℕ) (l : List ℕ) (p : Pool)
    → p.idle_chan.buffer ≡ c ∷ l
    → IsRunning p
    → IsRunning (take_in c (record p { idle_chan = record p.idle_chan { buffer = l } })).0
take_front-IsRunning c l p e r =
    Moved-IsRunning p (take_in c p').0 r
      (take_in-Inv [] p' c (record {
        sound = r.inv.sound;
        fits = omega (arith, ap length e, r.inv.fits);
        tracked = r.inv.tracked;
        unmade = r.inv.unmade;
        stopped = r.inv.stopped;
      }))
      (take_in-Moved c p')
  where
    p' : Pool
    p' = record p { idle_chan = record p.idle_chan { buffer = l } }

-- The connection is idle, and the last of the channel, behind `waiting`.
abbrev pub IsLast : ℕ → List ℕ → Pool → Type 0
IsLast c waiting q = ((q.heap c).status ≡ idle) × (q.idle_chan.buffer ≡ waiting ++ c ∷ [])

lt→not_leb : (a b : ℕ) → a < b → leb b a ≡ false
lt→not_leb a b h = ground arith

offer-IsLast :
    (c : ℕ) (p : Pool)
    → p.idle_chan.is_open ≡ true
    → length p.idle_chan.buffer < p.idle_chan.cap
    → (p.heap c).status ≡ idle
    → Returns (offer c p) (IsLast c p.idle_chan.buffer)
unfolding offer
offer-IsLast c p running room e = rw (lt→not_leb _ _ room, running, lt→ltb _ _ room) (e, refl)

-- A connection that is not closed finds its place at the end of a channel that has room.
pub give-IsLast :
    (now c : ℕ) (p : Pool)
    → IsRunning p
    → (p.heap c).status ≢ closed
    → length p.idle_chan.buffer < p.idle_chan.cap
    → Returns (give now c p) (λ q. IsRunning q × IsLast c p.idle_chan.buffer q)
give-IsLast now c p run live room =
    Returns-both (give now c p) IsRunning (IsLast c p.idle_chan.buffer) (give-IsRunning now c p run)
      (rw (give_of_live now c p live) (
        offer-IsLast c (put c (mark_idle now (p.heap c)) p) run.chan_open room
          (rw (update_self p.heap c (mark_idle now (p.heap c))) refl)))

pub close_in-closed :
    (c : ℕ) (p : Pool)
    → IsRunning p
    → Returns (close_in c p) (λ q. IsRunning q × ((q.heap c).status ≡ closed))
unfolding close_in
close_in-closed c p run =
    Returns-both (close_in c p) IsRunning (λ q. (q.heap c).status ≡ closed)
      (close_in-IsRunning c p run)
      (rw (close-eq-shut (p.heap c) (run.inv.sound c))
        (rw (update_self p.heap c (shut (p.heap c))) refl))
