-- ===== src/Server/Pool/Lifecycle/Shutdown.antt =====
-- `Shutdown` and `shutdown` of server/pool.go.
use Prim.Native.String.{String}
use wsp.Base.{ℕ, ◌≡◌, refl, ap, ◌∙◌, ◌⊎◌, inl, inr, false, List, [], ◌∷◌, In, arith}
use wsp.Runtime.{close_flag, ok, Returns, Returns-bind, Returns-mono}
use wsp.Server.Connection.{take, shut-IsSound, closed, IsSound, shut, close, close-eq-shut}
use wsp.Server.Pool.{take_in, Pool, put, close_in, give}
use wsp.Server.Pool.Keeper.{close_all, shutdown, keep_running, new_conn_closed, shut_down}
use wsp.Server.Pool.Invariant.{closed-cases, put-Inv, update_self, update-all, Inv}
use wsp.Server.Pool.Lifecycle.{IsRunning, Moved}

close_in-eq-put :
    (c : ℕ) (p : Pool) → IsSound (p.heap c) → close_in c p ≡ ok (put c (shut (p.heap c)) p)
unfolding close_in
close_in-eq-put c p s = rw (close-eq-shut (p.heap c) s)

close_all-closed :
    (cs : List ℕ) (p : Pool)
    → Inv [] p
    → Returns (close_all cs p) (λ q.
      Inv [] q
      × Moved p q
      × ((c : ℕ) → In c cs ⊎ ((p.heap c).status ≡ closed) → (q.heap c).status ≡ closed))
unfolding close_all
close_all-closed [] p inv = (inv, refl, λ c h. elim h [ inl n ↦ absurd n | inr e ↦ e ])
close_all-closed (c ∷ cs) p inv = rw (close_in-eq-put c p (inv.sound c)) (
    Returns-mono (close_all cs p') _ _ (close_all-closed cs p' inv')
      (λ q (i, m, all_closed). (i, m, λ d h. all_closed d (sooner d h))))
  where
    p' : Pool
    p' = put c (shut (p.heap c)) p

    inv' : Inv [] p'
    inv' = put-Inv [] p c (shut (p.heap c)) inv (shut-IsSound (p.heap c)) (λ _. refl)

    stays : (d : ℕ) → (p.heap d).status ≡ closed → (p'.heap d).status ≡ closed
    stays =
        update-all (λ d v. (p.heap d).status ≡ closed → v.status ≡ closed) p.heap c
          (shut (p.heap c)) (λ d e. e) (λ _. refl)

    sooner :
        (d : ℕ)
        → In d (c ∷ cs) ⊎ ((p.heap d).status ≡ closed)
        → In d cs ⊎ ((p'.heap d).status ≡ closed)
    sooner d (inr e) = inr (stays d e)
    sooner d (inl (inr m)) = inl m
    sooner d (inl (inl e)) = inr (rw (e, update_self p.heap c (shut (p.heap c))) refl)

-- A pool whose goroutine has ended.
pub record IsStopped (p : Pool) : Type 0 where
  pub inv : Inv [] p
  pub all_closed : (c : ℕ) → (p.heap c).status ≡ closed
  pub chan_closed : p.idle_chan.is_open ≡ false
  pub new_conn_closed : p.new_conn ≡ false

shutdown-IsStopped :
    (p : Pool) → IsRunning p → Returns (shutdown (record p { new_conn = false })) IsStopped
unfolding shutdown
shutdown-IsStopped p r =
    Returns-bind (close_all p.connections p') _ _ IsStopped (close_all-closed p.connections p' i)
      λ q (inv, m, all_closed).
        rw
          (
            ap (λ (t : Pool). t.ask_clean) m ∙ r.ask_clean_open,
            ap (λ (t : Pool). t.ask_size) m ∙ r.ask_size_open,
            ap (λ (t : Pool). t.get_size) m ∙ r.get_size_open,
            ap (λ (t : Pool). t.idle_chan.is_open) m ∙ r.chan_open,
          )
          (stopped q inv all_closed (ap (λ (t : Pool). t.new_conn) m))
  where
    p' : Pool
    p' = record p { new_conn = false }

    i : Inv [] p'
    i = record {
      sound = r.inv.sound;
      fits = r.inv.fits;
      tracked = r.inv.tracked;
      unmade = r.inv.unmade;
      stopped = r.inv.stopped;
    }

    stopped :
        (q : Pool)
        → Inv [] q
        → ((c : ℕ) → In c p.connections ⊎ ((p.heap c).status ≡ closed) → (q.heap c).status ≡ closed)
        → q.new_conn ≡ false
        → IsStopped (record q {
          idle_chan = record q.idle_chan { is_open = false };
          ask_clean = false;
          ask_size = false;
          get_size = false;
        })
    stopped q inv all_closed e = record {
      inv = record {
        sound = inv.sound;
        fits = inv.fits;
        tracked = inv.tracked;
        unmade = inv.unmade;
        stopped = λ _. every;
      };
      all_closed = every;
      chan_closed = refl;
      new_conn_closed = e;
    }
      where
        every : (c : ℕ) → (q.heap c).status ≡ closed
        every c = elim (closed-cases (p.heap c).status) [
          | inl e ↦ all_closed c (inr e)
          | inr live ↦ elim (r.inv.tracked c live) [
            | inl m ↦ all_closed c (inl m)
            | inr n ↦ absurd n
          ]
        ]

-- `Shutdown` returns on a running pool. Every connection of the pool is closed afterwards, also a
-- busy one, and the channel of idle connections is.
pub shut_down-IsStopped :
    (remote : ℕ → String) (p : Pool) → IsRunning p → Returns (shut_down remote p) IsStopped
unfolding shut_down keep_running
shut_down-IsStopped remote p r =
    Returns-bind (close_flag p.new_conn) _ (λ b. b ≡ false) IsStopped (rw (r.new_conn_open) refl)
      λ b e. rw e (
        Returns-bind (keep_running remote new_conn_closed (record p { new_conn = false })) _
          (λ x. IsStopped x.1) IsStopped
          (Returns-bind (shutdown (record p { new_conn = false })) _ IsStopped (λ x. IsStopped x.1)
            (shutdown-IsStopped p r) (λ q h. h))
          (λ x h. h))

-- Whoever still holds a connection of a pool that has been shut down does no harm with it: giving
-- it back changes nothing and sends nothing on the closed channel, closing it again changes nothing
-- but what is closed already, and nobody can take it.
pub late_use :
    (now c : ℕ) (p : Pool)
    → IsStopped p
    → (give now c p ≡ ok p) × (close (p.heap c) ≡ ok (p.heap c)) × ((take_in c p).1 ≡ false)
unfolding give close take_in take
late_use now c p s =
    (rw (s.all_closed c, give) refl, ground (arith, s.all_closed c), ground (arith, s.all_closed c))
