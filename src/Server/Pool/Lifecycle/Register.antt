-- ===== src/Server/Pool/Lifecycle/Register.antt =====
-- `Register` and `IsEmpty` of server/pool.go: neither panics nor blocks on a running pool.
use mathlib.Core.Path.{subst}
use Prim.Native.String.{String}
use wsp.Base.{
  ℕ, suc, ◌≤◌, ◌<◌, ◌≡◌, refl, sym, ap, ◌∙◌, inl, inr, Bool, true, List, [], ◌∷◌, ◌++◌, In,
  In-append_left, In-append_right, In-append_cases, Distinct, Distinct-snoc, length, ◌==◌, arith,
}
use wsp.Runtime.{Result, ok, ◌>>=◌, Returns, Returns-bind, Returns-mono, Returns-and, Returns-both}
use wsp.Server.Pool.{Pool, allocate, new_connection, clean}
use wsp.Server.Pool.Keeper.{
  ask_for_size, size, keep_running, new_conn_came, clean_asked, is_empty, register, ask, total_of,
}
use wsp.Server.Pool.Invariant.{Inv, new_connection-Inv}
use wsp.Server.Pool.Channel.{
  length-idle_only-le, idle_only, with_buffer, clean_idle_chan-eq-idle_only,
}
use wsp.Server.Pool.Size.{AllLive}
use wsp.Server.Pool.Clean.{Cleaned}
use wsp.Server.Pool.Clean.Loop.{clean-Cleaned}
use wsp.Server.Pool.Lifecycle.{IsRunning, Moved, give-Moved, clean-IsRunning}

ask_open : {B : Type 0} (b : Bool) (f : Unit {0} → Result B) → b ≡ true → (ask b >>= f) ≡ f tt
ask_open b f e = rw e

-- A connection is made, and given to the channel, under the next number.
new_connection-Moved :
    (now : ℕ) (p : Pool)
    → Inv [] p
    → p.idle_chan.is_open ≡ true
    → Returns (new_connection now p) (λ q. Inv (p.made ∷ []) q × Moved (allocate now p) q)
unfolding new_connection
new_connection-Moved now p inv running =
    Returns-and (new_connection now p) (Inv (p.made ∷ [])) (Moved (allocate now p))
      (new_connection-Inv [] now p inv running) (give-Moved now p.made (allocate now p))

with_buffer-IsRunning :
    (p : Pool) (l : List ℕ) → IsRunning p → length l ≤ p.idle_chan.cap → IsRunning (with_buffer l p)
with_buffer-IsRunning p l r h = record {
  inv = record {
    sound = r.inv.sound;
    fits = h;
    tracked = r.inv.tracked;
    unmade = r.inv.unmade;
    stopped = r.inv.stopped;
  };
  distinct = r.distinct;
  numbered = r.numbered;
  chan_open = r.chan_open;
  new_conn_open = r.new_conn_open;
  ask_clean_open = r.ask_clean_open;
  ask_size_open = r.ask_size_open;
  get_size_open = r.get_size_open;
}

-- The goroutine appends the new connection to the list that it has cleaned.
append-IsRunning :
    (c : ℕ) (p q : Pool)
    → (p.made ≡ suc c)
      × (p.idle_chan.is_open ≡ true)
      × (p.new_conn ≡ true)
      × (p.ask_clean ≡ true)
      × (p.ask_size ≡ true)
      × (p.get_size ≡ true)
    → ((d : ℕ) → In d p.connections → d < c)
    → (now : ℕ → ℕ) → Cleaned (c ∷ []) now p q
    → IsRunning (record q { connections = q.connections ++ c ∷ [] })
append-IsRunning c p q (made, o1, o2, o3, o4, o5) below now g = record {
  inv = record {
    sound = g.inv.sound;
    fits = g.inv.fits;
    tracked = λ d live. inl (elim (g.inv.tracked d live) [
      | inl old ↦ In-append_left d q.connections (c ∷ []) old
      | inr new ↦ In-append_right d q.connections (c ∷ []) new
    ]);
    unmade = g.inv.unmade;
    stopped = g.inv.stopped;
  };
  distinct =
      Distinct-snoc q.connections c g.distinct
        (λ m. absurd (omega (arith, below c (g.subset c m))));
  numbered = λ d m. elim (In-append_cases d q.connections (c ∷ []) m) [
    | inl old ↦ omega (arith, below d (g.subset d old), made', made)
    | inr new ↦ elim new [
      | inl e ↦ omega (arith, e, made', made)
      | inr none_left ↦ absurd none_left
    ]
  ];
  chan_open = ap (λ (t : Pool). t.idle_chan.is_open) g.frame ∙ o1;
  new_conn_open = ap (λ (t : Pool). t.new_conn) g.frame ∙ o2;
  ask_clean_open = ap (λ (t : Pool). t.ask_clean) g.frame ∙ o3;
  ask_size_open = ap (λ (t : Pool). t.ask_size) g.frame ∙ o4;
  get_size_open = ap (λ (t : Pool). t.get_size) g.frame ∙ o5;
}
  where
    made' : q.made ≡ p.made
    made' = ap (λ (t : Pool). t.made) g.frame

-- The goroutine has cleaned the pool and appended the connection.
abbrev pub Appended : (ℕ → ℕ) → ℕ → Pool → Pool → Type 0
Appended clock c r t =
    (q : Pool) × Cleaned (c ∷ []) clock r q
    × (t ≡ record q { connections = q.connections ++ c ∷ [] })

-- What follows in `Register` once the channel has been cleaned.
connect-IsRunning :
    (remote : ℕ → String) (now : ℕ) (clock : ℕ → ℕ) (p : Pool)
    → IsRunning p
    → (r : Pool) → Inv (p.made ∷ []) r × Moved (allocate now p) r
    → Returns
        (do _ ← ask r.new_conn; (_, t) ← keep_running remote (new_conn_came clock p.made) r; ok t)
        (λ t. IsRunning t × Appended clock p.made r t)
unfolding keep_running
connect-IsRunning remote now clock p run r (inv, frame) =
    Returns-bind (ask r.new_conn) _ (λ _. Unit {0}) Done (rw (o2) tt)
      λ _ _.
        Returns-bind (keep_running remote (new_conn_came clock p.made) r) _ (λ x. Done x.1) Done
          (Returns-bind (clean clock r) _ (Cleaned (p.made ∷ []) clock r) (λ x. Done x.1)
            (clean-Cleaned (p.made ∷ []) clock r inv (subst Distinct (sym same_list) run.distinct))
            (λ q g. (
              append-IsRunning p.made r q
                  (
                    ap (λ (t : Pool). t.made) frame,
                    ap (λ (t : Pool). t.idle_chan.is_open) frame ∙ run.chan_open,
                    o2,
                    ap (λ (t : Pool). t.ask_clean) frame ∙ run.ask_clean_open,
                    ap (λ (t : Pool). t.ask_size) frame ∙ run.ask_size_open,
                    ap (λ (t : Pool). t.get_size) frame ∙ run.get_size_open,
                  )
                  (λ d m. run.numbered d (subst (In d) same_list m)) clock g,
              (q, g, refl),
            )))
          (λ x h. h)
  where
    Done : Pool → Type 0
    Done t = IsRunning t × Appended clock p.made r t

    o2 : r.new_conn ≡ true
    o2 = ap (λ (t : Pool). t.new_conn) frame ∙ run.new_conn_open

    same_list : r.connections ≡ p.connections
    same_list = ap (λ (t : Pool). t.connections) frame

-- The pool once `Register` has cleaned its channel.
abbrev pub tidied : Pool → Pool
tidied p = with_buffer (idle_only p.heap p.idle_chan.buffer) p

tidied-IsRunning : (p : Pool) → IsRunning p → IsRunning (tidied p)
tidied-IsRunning p r =
    with_buffer-IsRunning p (idle_only p.heap p.idle_chan.buffer) r
      (omega (arith, r.inv.fits, length-idle_only-le p.heap p.idle_chan.buffer))

-- `Register` cleans the channel, makes the connection and has the goroutine append it.
pub register-Appended :
    (remote : ℕ → String) (now : ℕ) (clock : ℕ → ℕ) (p : Pool)
    → IsRunning p
    → (P : Pool → Type 0) → Returns (new_connection now (tidied p)) P
    → Returns (register remote now clock p) (λ t.
      IsRunning t × ((r : Pool) × P r × Moved (allocate now p) r × Appended clock p.made r t))
unfolding register
register-Appended remote now clock p run P made =
    rw (register, clean_idle_chan-eq-idle_only p run.chan_open run.inv.fits)
      (Returns-bind (new_connection now (tidied p)) _ _ _
        (Returns-both (new_connection now (tidied p)) P
          (λ q. Inv (p.made ∷ []) q × Moved (allocate now (tidied p)) q) made
          (new_connection-Moved now (tidied p) tidy.inv tidy.chan_open))
        λ r (h, (i, m)).
          Returns-mono
            (do
              _ ← ask r.new_conn
              (_, t) ← keep_running remote (new_conn_came clock p.made) r
              ok t)
            _ _ (connect-IsRunning remote now clock (tidied p) tidy r (i, m))
            λ t (x, a). (x, (r, h, m, a)))
  where
    tidy : IsRunning (tidied p)
    tidy = tidied-IsRunning p run

-- `Register` keeps the pool running, and neither panics nor blocks.
pub register-IsRunning :
    (remote : ℕ → String) (now : ℕ) (clock : ℕ → ℕ) (p : Pool)
    → IsRunning p
    → Returns (register remote now clock p) IsRunning
register-IsRunning remote now clock p r =
    Returns-mono (register remote now clock p) _ _
      (register-Appended remote now clock p r (Inv (p.made ∷ []))
        (new_connection-Inv [] now (tidied p) (tidied-IsRunning p r).inv r.chan_open))
      λ t h. h.0

-- `IsEmpty` keeps the pool running, without the connections that are closed, and answers whether a
-- connection is left.
pub is_empty-IsRunning :
    (remote : ℕ → String) (now : ℕ → ℕ) (p : Pool)
    → IsRunning p
    → Returns
        (is_empty remote now p)
        (λ r. IsRunning r.1 × AllLive r.1 × (r.0 ≡ (length r.1.connections == 0)))
unfolding is_empty keep_running
is_empty-IsRunning remote now p r =
    Returns-bind (ask p.ask_clean) _ (λ _. Unit {0}) _ (rw r.ask_clean_open tt)
      λ _ _.
        Returns-bind (keep_running remote (clean_asked now) p) _
          (λ x. IsRunning x.1 × AllLive x.1 × (total_of x.0 ≡ length x.1.connections)) _
          (Returns-bind (clean now p) _ (λ q. IsRunning q × AllLive q) _ (clean-IsRunning now p r)
            (λ q h. (h.0, h.1, refl)))
          (λ x h. (h.0, h.1, ap (λ n. n == 0) h.2))

-- `Size` leaves the pool as it is, and answers with its counts.
pub ask_for_size-eq-size :
    (remote : ℕ → String) (now : ℕ) (p : Pool)
    → IsRunning p
    → ask_for_size remote now p ≡ ok (size remote now p, p)
unfolding ask_for_size keep_running
ask_for_size-eq-size remote now p r =
    ask_open p.ask_size (λ _. ok (size remote now p, p)) r.ask_size_open
