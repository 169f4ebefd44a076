-- ===== src/Server/Pool/Invariant.antt =====
-- What every operation of a pool keeps, and that none of them panics or blocks.
use wsp.Base.{
  ℕ, suc, ◌≤◌, ◌<◌, ◌≡◌, refl, ◌≢◌, ◌⊎◌, inl, inr, true, false, List, [], ◌∷◌, In, length,
  length-append, Bool-cases, lt→ltb, leb, arith, ℕ_discrete,
}
use mathlib.Core.Path.{subst}
use mathlib.Core.Logic.{if_pos, if_neg}
use wsp.Runtime.{Returns}
use wsp.Server.Connection.{
  ConnectionStatus, closed, Connection, IsSound, shut, close-eq-shut, shut-IsSound, take,
  take-IsSound, mark_idle, fresh, fresh-IsSound,
}
use wsp.Server.Pool.{Pool, update, put, close_in, take_in, offer, give, new_connection, allocate}

-- `pending` are the connections that have been made and not yet handed to the pool's goroutine.
pub record Inv (pending : List ℕ) (p : Pool) : Type 0 where
  pub sound : (c : ℕ) → IsSound (p.heap c)
  pub fits : length p.idle_chan.buffer ≤ p.idle_chan.cap
  pub tracked : (c : ℕ) → (p.heap c).status ≢ closed → In c p.connections ⊎ In c pending
  pub unmade : (c : ℕ) → p.made ≤ c → (p.heap c).status ≡ closed
  pub stopped : p.idle_chan.is_open ≡ false → (c : ℕ) → (p.heap c).status ≡ closed

pub update_self : (h : ℕ → Connection) (c : ℕ) (v : Connection) → update h c v c ≡ v
update_self h c v = if_pos _ refl v (h c)

pub update_ne : (h : ℕ → Connection) (c d : ℕ) (v : Connection) → c ≢ d → update h c v d ≡ h d
update_ne h c d v n = if_neg _ n v (h d)

-- Whatever holds of the old entries and of the new one holds after the update.
pub update-all :
    (P : ℕ → Connection → Type 0) (h : ℕ → Connection) (c : ℕ) (v : Connection)
    → ((d : ℕ) → P d (h d))
    → P c v
    → (d : ℕ) → P d (update h c v d)
update-all P h c v old new d = elim (ℕ_discrete c d) [
  | yes e ↦ rw (if_pos _ e) (subst (λ k. P k v) e new)
  | no n ↦ rw (if_neg _ n) (old d)
]

-- A write that closes a connection or leaves it as open as it was.
pub put-Inv :
    (pending : List ℕ) (p : Pool) (c : ℕ) (v : Connection)
    → Inv pending p
    → IsSound v
    → ((p.heap c).status ≡ closed → v.status ≡ closed)
    → Inv pending (put c v p)
put-Inv pending p c v inv s keeps = record {
  sound = update-all (λ _. IsSound) p.heap c v inv.sound s;
  fits = inv.fits;
  tracked =
      update-all (λ d w. w.status ≢ closed → Kept d) p.heap c v inv.tracked
        (λ n. inv.tracked c (λ e. n (keeps e)));
  unmade =
      update-all (λ d w. p.made ≤ d → w.status ≡ closed) p.heap c v inv.unmade
        (λ h. keeps (inv.unmade c h));
  stopped = λ e.
      update-all (λ _ w. w.status ≡ closed) p.heap c v (inv.stopped e) (keeps (inv.stopped e c));
}
  where
    Kept : ℕ → Type 0
    Kept d = In d p.connections ⊎ In d pending

pub not_leb→lt : (a b : ℕ) → leb a b ≡ false → b < a
not_leb→lt a b h = ground arith

pub closed-cases : (s : ConnectionStatus) → (s ≡ closed) ⊎ (s ≢ closed)
closed-cases s = ground arith

mark_idle-IsSound :
    (now : ℕ) (c : Connection) → IsSound c → c.status ≢ closed → IsSound (mark_idle now c)
mark_idle-IsSound now c s live = ground arith

pub give_of_live :
    (now c : ℕ) (p : Pool)
    → (p.heap c).status ≢ closed
    → give now c p ≡ offer c (put c (mark_idle now (p.heap c)) p)
unfolding give
give_of_live now c p live = ground arith

pub close_in-Inv :
    (pending : List ℕ) (p : Pool) (c : ℕ) → Inv pending p → Returns (close_in c p) (Inv pending)
unfolding close_in
close_in-Inv pending p c inv =
    rw (close-eq-shut (p.heap c) (inv.sound c))
      (put-Inv pending p c (shut (p.heap c)) inv (shut-IsSound (p.heap c)) (λ _. refl))

pub take_in-Inv :
    (pending : List ℕ) (p : Pool) (c : ℕ) → Inv pending p → Inv pending (take_in c p).0
unfolding take_in take
take_in-Inv pending p c inv =
    (put-Inv pending p c (take (p.heap c)).0 inv (take-IsSound _ (inv.sound c)) (λ e. ground arith))

is_open_of_live :
    {pending : List ℕ} {p : Pool} (c : ℕ)
    → Inv pending p
    → (p.heap c).status ≢ closed
    → p.idle_chan.is_open ≡ true
is_open_of_live {p = p} c inv live = elim (Bool-cases p.idle_chan.is_open) [
  | inl e ↦ e
  | inr e ↦ absurd (live (inv.stopped e c))
]

offer-Inv :
    (pending : List ℕ) (p : Pool) (c : ℕ)
    → Inv pending p
    → (p.heap c).status ≢ closed
    → Returns (offer c p) (Inv pending)
unfolding offer
offer-Inv pending p c inv live =
    elim (Bool-cases (leb p.idle_chan.cap (length p.idle_chan.buffer))) [
      | inl full ↦ rw full (close_in-Inv pending p c inv)
      | inr room ↦
          let below = not_leb→lt p.idle_chan.cap (length p.idle_chan.buffer) room in
          rw (room, is_open_of_live c inv live, lt→ltb _ _ below)
            (record {
              sound = inv.sound;
              fits = omega (arith, length-append p.idle_chan.buffer (c ∷ []), below);
              tracked = inv.tracked;
              unmade = inv.unmade;
              stopped = λ e _. cc;
            })
    ]

-- `Give` returns, whatever the state of the connection and however full the channel is.
pub give-Inv :
    (pending : List ℕ) (now c : ℕ) (p : Pool) → Inv pending p → Returns (give now c p) (Inv pending)
unfolding give
give-Inv pending now c p inv = elim (closed-cases (p.heap c).status) [
  | inl e ↦ rw (e, give) inv
  | inr live ↦ rw (give_of_live now c p live) (
      offer-Inv pending (put c (mark_idle now (p.heap c)) p) c
        (put-Inv pending p c (mark_idle now (p.heap c)) inv
          (mark_idle-IsSound now (p.heap c) (inv.sound c) live) (λ e. absurd (live e)))
        (ground arith))
]

pub new_connection-Inv :
    (pending : List ℕ) (now : ℕ) (p : Pool)
    → Inv pending p
    → p.idle_chan.is_open ≡ true
    → Returns (new_connection now p) (Inv (p.made ∷ pending))
unfolding new_connection
new_connection-Inv pending now p inv running =
    give-Inv (p.made ∷ pending) now p.made (allocate now p) (record {
      sound = update-all (λ _. IsSound) p.heap p.made (fresh now) inv.sound (fresh-IsSound now);
      fits = inv.fits;
      tracked =
          update-all (λ d w. w.status ≢ closed → In d p.connections ⊎ In d (p.made ∷ pending))
            p.heap p.made (fresh now) (λ d live. ground (arith, inv.tracked d))
            (λ _. inr (inl refl));
      unmade =
          update-all (λ d w. suc p.made ≤ d → w.status ≡ closed) p.heap p.made (fresh now)
            (λ d h. inv.unmade d (omega arith)) (λ h. absurd (omega arith));
      stopped = λ e _. cc;
    })
