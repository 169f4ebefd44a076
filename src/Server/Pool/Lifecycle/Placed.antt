-- ===== src/Server/Pool/Lifecycle/Placed.antt =====
-- Where `Register` of server/pool.go puts the connection that it makes.
use mathlib.Core.Path.{subst}
use Prim.Native.String.{String}
use wsp.Base.{
  ℕ, suc, ◌≤◌, ◌<◌, ◌≡◌, refl, sym, ap, ◌∙◌, ◌≢◌, inl, inr, true, List, [], ◌∷◌, ◌++◌, In, length,
  Bool-cases, leb, lt→ltb, arith,
}
use wsp.Runtime.{Returns, Returns-mono}
use wsp.Server.Connection.{closed, Connection, fresh, shut, close-eq-shut}
use wsp.Server.Pool.{Pool, put, allocate, close_in, offer, new_connection, mark_idle}
use wsp.Server.Pool.Keeper.{register}
use wsp.Server.Pool.Invariant.{update_self, give_of_live, not_leb→lt}
use wsp.Server.Pool.Channel.{idle_only}
use wsp.Server.Pool.Clean.{Cleaned, Change-unlisted}
use wsp.Server.Pool.Lifecycle.{IsRunning}
use wsp.Server.Pool.Lifecycle.Register.{tidied, register-Appended}

-- A new connection as `Give` leaves it.
abbrev pub ready : ℕ → Connection
ready now = mark_idle now (fresh now)

-- A new connection `c` waits, idle, behind those of the channel, if that has room for it; it is
-- closed if not.
pub data Placed (now c : ℕ) (waiting : List ℕ) (cap : ℕ) (q : Pool) : Type 0 where
  queued :
      length waiting < cap
      → q.idle_chan.buffer ≡ waiting ++ c ∷ []
      → q.heap c ≡ ready now
      → Placed now c waiting cap q
  turned_away :
      cap ≤ length waiting
      → q.idle_chan.buffer ≡ waiting
      → q.heap c ≡ shut (ready now)
      → Placed now c waiting cap q

leb→le : (a b : ℕ) → leb a b ≡ true → a ≤ b
leb→le a b h = ground arith

offer-Placed :
    (now c : ℕ) (p : Pool)
    → p.idle_chan.is_open ≡ true
    → p.heap c ≡ ready now
    → Returns (offer c p) (Placed now c p.idle_chan.buffer p.idle_chan.cap)
unfolding offer close_in
offer-Placed now c p running own =
    elim (Bool-cases (leb p.idle_chan.cap (length p.idle_chan.buffer))) [
      | inl full ↦
          rw (full, own, close-eq-shut (ready now) (inr (λ e. cc, refl, refl)))
            (turned_away (leb→le _ _ full) refl (update_self p.heap c (shut (ready now))))
      | inr room ↦
          let below = not_leb→lt p.idle_chan.cap (length p.idle_chan.buffer) room in
          rw (room, running, lt→ltb _ _ below) (queued below refl own)
    ]

new_connection-Placed :
    (now : ℕ) (p : Pool)
    → p.idle_chan.is_open ≡ true
    → Returns (new_connection now p) (Placed now p.made p.idle_chan.buffer p.idle_chan.cap)
unfolding new_connection
new_connection-Placed now p running = rw (give_of_live now p.made a live) (
    offer-Placed now p.made (put p.made (mark_idle now (a.heap p.made)) a) running
      (update_self a.heap p.made (mark_idle now (a.heap p.made)) ∙ ap (mark_idle now) own))
  where
    a : Pool
    a = allocate now p

    own : a.heap p.made ≡ fresh now
    own = update_self p.heap p.made (fresh now)

    live : (a.heap p.made).status ≢ closed
    live = ground (arith, own)

-- What `Register` has done with the connection that it has made.
pub record Registered (now : ℕ) (p q : Pool) : Type 0 where
  pub running : IsRunning q
  pub number : q.made ≡ suc p.made
  pub cap : q.idle_chan.cap ≡ p.idle_chan.cap
  pub listed :
      (l : List ℕ) × (q.connections ≡ l ++ p.made ∷ []) × ((c : ℕ) → In c l → In c p.connections)
  pub placed : Placed now p.made (idle_only p.heap p.idle_chan.buffer) p.idle_chan.cap q

-- The goroutine of the pool leaves the connection and the channel as they are.
Placed-cleaned :
    (clock : ℕ → ℕ) (now c : ℕ) (waiting : List ℕ) (cap : ℕ) (r q : Pool)
    → ¬ In c r.connections
    → Cleaned (c ∷ []) clock r q
    → Placed now c waiting cap r
    → Placed now c waiting cap (record q { connections = q.connections ++ c ∷ [] })
Placed-cleaned clock now c waiting cap r q unlisted g (queued room b v) =
    queued room (ap (λ (t : Pool). t.idle_chan.buffer) g.frame ∙ b)
      (Change-unlisted unlisted (g.changed c) ∙ v)
Placed-cleaned clock now c waiting cap r q unlisted g (turned_away full b v) =
    turned_away full (ap (λ (t : Pool). t.idle_chan.buffer) g.frame ∙ b)
      (Change-unlisted unlisted (g.changed c) ∙ v)

-- `Register` returns on a running pool, and leaves it running, with the new connection behind those
-- of the list that the cleaning leaves. It takes out of the channel the connections that are not
-- idle; if that leaves room, the new connection is idle and the last of the channel, with the
-- others in their order before it; if not, the new connection is closed and the channel holds the
-- others only.
pub register-Registered :
    (remote : ℕ → String) (now : ℕ) (clock : ℕ → ℕ) (p : Pool)
    → IsRunning p
    → Returns (register remote now clock p) (Registered now p)
register-Registered remote now clock p run =
    Returns-mono (register remote now clock p) _ _
      (register-Appended remote now clock p run _
        (new_connection-Placed now (tidied p) run.chan_open))
      λ t (running, (r, pl, m, (q, g, e))). record {
        running = running;
        number =
            ap (λ (x : Pool). x.made) e
            ∙ ap (λ (x : Pool). x.made) g.frame
            ∙ ap (λ (x : Pool). x.made) m;
        cap =
            ap (λ (x : Pool). x.idle_chan.cap) e
            ∙ ap (λ (x : Pool). x.idle_chan.cap) g.frame
            ∙ ap (λ (x : Pool). x.idle_chan.cap) m;
        listed = (
          q.connections,
          ap (λ (x : Pool). x.connections) e,
          λ c h. subst (In c) (ap (λ (x : Pool). x.connections) m) (g.subset c h),
        );
        placed =
            subst (Placed now p.made (idle_only p.heap p.idle_chan.buffer) p.idle_chan.cap) (sym e)
              (Placed-cleaned clock now p.made _ _ r q
                (λ h. absurd (
                  omega (
                    arith,
                    run.numbered p.made (subst (In p.made) (ap (λ (x : Pool). x.connections) m) h),
                  )))
                g pl);
      }
