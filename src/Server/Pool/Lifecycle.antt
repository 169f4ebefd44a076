-- ===== src/Server/Pool/Lifecycle.antt =====
-- The life of a pool: it is made, runs, and changes as its operations say.
pub mod Placed
pub mod Register
pub mod Return
pub mod Shutdown
use mathlib.Core.Path.{subst}
use Prim.Native.String.{String}
use wsp.Base.{
  ℕ, suc, ◌+◌, ◌≤◌, ◌<◌, ◌≡◌, refl, sym, ap, ◌∙◌, ◌≢◌, ◌⊎◌, inl, inr, Bool, true, false, List, [],
  ◌∷◌, ◌++◌, In, In-append_left, In-append_right, In-append_cases, Distinct, Distinct-snoc, length,
  Bool-cases, ◌==◌, ltb, leb, lt→ltb, le→leb, arith, ℕ_discrete, if◌then◌else◌,
}
use wsp.Base.Int.{ℤ, pos, negsuc, inc_int}
use wsp.Mulch.{Handshake}
use wsp.Runtime.{
  Result, ok, panics, chan_size, ◌>>=◌, Chan, send, Returns, Returns-bind, Returns-mono,
  Returns-and, WhenOk, close_of_closed,
}
use wsp.Server.Connection.{
  ConnectionStatus, idle, busy, closed, Connection, IsSound, shut, close, close-eq-shut,
}
use wsp.Server.Pool.{
  Pool, put, close_in, offer, give, allocate, new_connection, new_pool, clean, mark_idle,
}
use wsp.Server.Pool.Keeper.{
  clean_idle_chan, close_all, shutdown, keep_running, Message, Reply, new_conn_came, clean_asked,
  size_asked, new_conn_closed, is_empty, register, shut_down, ask, total_of,
}
use wsp.Server.Pool.Invariant.{Inv, give-Inv, new_connection-Inv, close_in-Inv}
use wsp.Server.Pool.Channel.{
  length-idle_only-le, idle_only, with_buffer, clean_idle_chan-eq-idle_only,
}
use wsp.Server.Pool.Size.{AllLive}
use wsp.Server.Pool.Clean.{Cleaned}
use wsp.Server.Pool.Clean.Loop.{clean-Cleaned}

-- A pool whose goroutine waits for messages.
pub record IsRunning (p : Pool) : Type 0 where
  pub inv : Inv [] p
  pub distinct : Distinct p.connections
  pub numbered : (c : ℕ) → In c p.connections → c < p.made
  pub chan_open : p.idle_chan.is_open ≡ true
  pub new_conn_open : p.new_conn ≡ true
  pub ask_clean_open : p.ask_clean ≡ true
  pub ask_size_open : p.ask_size ≡ true
  pub get_size_open : p.get_size ≡ true

-- `NewPool` makes a running pool if the size that the client asks for, and one more, is not
-- negative and not above what the runtime can allocate.
pub new_pool_lem :
    (limit now timeout : ℕ) (client : Handshake) (alt_id : String) (n : ℕ)
    → inc_int client.max_size ≡ pos n
    → n ≤ limit
    → Returns (new_pool limit now timeout client alt_id) IsRunning
unfolding new_pool
new_pool_lem limit now timeout client alt_id n e h =
    rw (e, le→leb n limit h)
      (record {
        inv = record {
          sound = λ c. inl (refl, refl, refl);
          fits = omega arith;
          tracked = λ c live. absurd (live refl);
          unmade = λ c h. refl;
          stopped = λ e c. refl;
        };
        distinct = tt;
        numbered = λ c m. elim m [ ];
        chan_open = refl;
        new_conn_open = refl;
        ask_clean_open = refl;
        ask_size_open = refl;
        get_size_open = refl;
      })

-- The fields that `Give` leaves alone.
abbrev pub Moved : Pool → Pool → Type 0
Moved p q =
    q ≡ record p { heap = q.heap; idle_chan = record p.idle_chan { buffer = q.idle_chan.buffer } }

close-cases :
    (c : Connection)
    → (close c ≡ ok (shut c)) ⊎ ((close c ≡ ok c) ⊎ (close c ≡ panics close_of_closed))
unfolding close
close-cases c = ground arith

pub close_in-Moved : (c : ℕ) (p : Pool) → WhenOk (close_in c p) (Moved p)
unfolding close_in
close_in-Moved c p = elim (close-cases (p.heap c)) [
  | inl e ↦ rw e refl
  | inr r ↦ elim r [ inl e ↦ rw e refl | inr e ↦ rw e tt ]
]

offer-Moved : (c : ℕ) (p : Pool) → WhenOk (offer c p) (Moved p)
unfolding offer
offer-Moved c p = elim (Bool-cases (leb p.idle_chan.cap (length p.idle_chan.buffer))) [
  | inl e ↦ rw e (close_in-Moved c p)
  | inr e ↦ elim (Bool-cases p.idle_chan.is_open) [
    | inr stopped ↦ rw (e, stopped) tt
    | inl o ↦ elim (Bool-cases (ltb (length p.idle_chan.buffer) p.idle_chan.cap)) [
      | inl l ↦ rw (e, o, l) refl
      | inr l ↦ rw (e, o, l) tt
    ]
  ]
]

pub give-Moved : (now c : ℕ) (p : Pool) → WhenOk (give now c p) (Moved p)
unfolding give
give-Moved now c p = go (p.heap c).status refl
  where
    go : (s : ConnectionStatus) → (p.heap c).status ≡ s → WhenOk (give now c p) (Moved p)
    go idle e = rw (e, give) (offer-Moved c (put c (mark_idle now (p.heap c)) p))
    go busy e = rw (e, give) (offer-Moved c (put c (mark_idle now (p.heap c)) p))
    go closed e = rw (e, give) refl

-- A cleaned pool goes on running, and lists no closed connection.
pub clean-IsRunning :
    (now : ℕ → ℕ) (p : Pool) → IsRunning p → Returns (clean now p) (λ q. IsRunning q × AllLive q)
clean-IsRunning now p r =
    Returns-mono (clean now p) (Cleaned [] now p) _ (clean-Cleaned [] now p r.inv r.distinct)
      (λ q c. (cleaned q c, c.live))
  where
    cleaned : (q : Pool) → Cleaned [] now p q → IsRunning q
    cleaned q c = record {
      inv = c.inv;
      distinct = c.distinct;
      numbered = λ d m.
          subst (λ n. d < n) (sym (ap (λ (t : Pool). t.made) c.frame))
            (r.numbered d (c.subset d m));
      chan_open = ap (λ (t : Pool). t.idle_chan.is_open) c.frame ∙ r.chan_open;
      new_conn_open = ap (λ (t : Pool). t.new_conn) c.frame ∙ r.new_conn_open;
      ask_clean_open = ap (λ (t : Pool). t.ask_clean) c.frame ∙ r.ask_clean_open;
      ask_size_open = ap (λ (t : Pool). t.ask_size) c.frame ∙ r.ask_size_open;
      get_size_open = ap (λ (t : Pool). t.get_size) c.frame ∙ r.get_size_open;
    }

-- What `Give` and `Close` may change leaves a running pool running.
pub Moved-IsRunning : (p q : Pool) → IsRunning p → Inv [] q → Moved p q → IsRunning q
Moved-IsRunning p q r inv m = record {
  inv = inv;
  distinct = subst Distinct (sym (ap (λ (t : Pool). t.connections) m)) r.distinct;
  numbered = λ c h.
      subst (λ n. c < n) (sym (ap (λ (t : Pool). t.made) m))
        (r.numbered c (subst (In c) (ap (λ (t : Pool). t.connections) m) h));
  chan_open = ap (λ (t : Pool). t.idle_chan.is_open) m ∙ r.chan_open;
  new_conn_open = ap (λ (t : Pool). t.new_conn) m ∙ r.new_conn_open;
  ask_clean_open = ap (λ (t : Pool). t.ask_clean) m ∙ r.ask_clean_open;
  ask_size_open = ap (λ (t : Pool). t.ask_size) m ∙ r.ask_size_open;
  get_size_open = ap (λ (t : Pool). t.get_size) m ∙ r.get_size_open;
}
