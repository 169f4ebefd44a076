-- ===== src/Server/Pool/Clean/Loop.antt =====
-- The loop of `clean` of server/pool.go.
use mathlib.Core.Path.{subst}
use mathlib.Core.List.{append_assoc, append-nil}
use Prim.Native.Nat.{min}
use wsp.Base.{
  In-remove, In-middle, In-append_left, In-append_right, ℕ, suc, ◌+◌, ◌-◌, ◌≤◌, ◌<◌, ◌≡◌, refl, sym,
  ap, ◌≢◌, ◌⊎◌, inl, inr, true, List, [], ◌∷◌, ◌++◌, In, Distinct, Distinct-middle_left,
  Distinct-middle_right, Distinct-remove, In-append_cases, length, length-append, arith,
  if◌then◌else◌,
}
use wsp.Base.Int.{pos_part}
use wsp.Runtime.{Returns}
use wsp.Server.Connection.{idle, closed, Connection, shut, shut-IsSound}
use wsp.Server.Pool.{Pool, update, put, is_idle, is_surplus, clean_loop, clean}
use wsp.Server.Pool.Invariant.{Inv, put-Inv, update_self, update_ne, update-all}
use wsp.Server.Pool.Clean.{
  idle_in, dead, kept, reaped, visit, surplus_parts, Change, same, reap-Change, rest_of, Cleaned,
}

-- The loop of `clean` on its way: `save` are the connections kept so far, `todo` those to come.
record Progress (pending : List ℕ) (now : ℕ → ℕ) (p : Pool) (save todo : List ℕ) (count : ℕ)
    (q : Pool) : Type 0 where
  inv : Inv pending (record q { connections = save ++ todo })
  counted : q.closed_count + length save + length todo ≡ p.closed_count + length p.connections
  changed : (c : ℕ) → Change now p c (q.heap c)
  live : (c : ℕ) → In c save → (q.heap c).status ≢ closed
  distinct : Distinct (save ++ todo)
  seen : count + idle_in q.heap todo ≡ idle_in p.heap p.connections
  reserve : min (pos_part p.min_size) count ≤ idle_in q.heap save
  subset : (d : ℕ) → In d (save ++ todo) → In d p.connections
  frame : q ≡ rest_of p q

idle_in-append :
    (h : ℕ → Connection) (xs ys : List ℕ) → idle_in h (xs ++ ys) ≡ idle_in h xs + idle_in h ys
idle_in-append h [] ys = omega arith
idle_in-append h (x ∷ xs) ys = omega (arith, idle_in-append h xs ys)

idle_in-update :
    (h : ℕ → Connection) (c : ℕ) (v : Connection) (xs : List ℕ)
    → ¬ In c xs
    → idle_in (update h c v) xs ≡ idle_in h xs
idle_in-update h c v [] n = refl
idle_in-update h c v (x ∷ xs) n =
    rw (update_ne h c x v (λ e. n (inl e)), idle_in-update h c v xs (λ m. n (inr m)))

module _ {pending : List ℕ} {now : ℕ → ℕ} {p : Pool} {save : List ℕ} {c : ℕ} {cs : List ℕ}
    {count : ℕ} {q : Pool} (g : Progress pending now p save (c ∷ cs) count q) where
  -- A connection that is not open is dropped from the list.
  drop-Progress :
      (h : ℕ → Connection) (count' : ℕ)
      → Inv pending (record q { heap = h; connections = save ++ cs })
      → ((d : ℕ) → Change now p d (h d))
      → ((d : ℕ) → In d save → (h d).status ≢ closed)
      → count' + idle_in h cs ≡ idle_in p.heap p.connections
      → min (pos_part p.min_size) count' ≤ idle_in h save
      → Progress pending now p save cs count'
          (record q { heap = h; closed_count = suc q.closed_count })
  drop-Progress h count' i ch l sn rs = record {
    inv = record {
      sound = i.sound;
      fits = i.fits;
      tracked = i.tracked;
      unmade = i.unmade;
      stopped = i.stopped;
    };
    counted = omega (arith, g.counted);
    changed = ch;
    live = l;
    distinct = Distinct-remove save c cs g.distinct;
    seen = sn;
    reserve = rs;
    subset = λ d m. g.subset d (In-remove d save c cs m);
    frame = ap (λ (r : Pool). record r { heap = h; closed_count = suc q.closed_count }) g.frame;
  }

  -- The list may lose an entry that is closed.
  tracked_without :
      (h : ℕ → Connection)
      → ((d : ℕ) → (h d).status ≢ closed → In d (save ++ c ∷ cs) ⊎ In d pending)
      → (h c).status ≡ closed
      → (d : ℕ) → (h d).status ≢ closed
      → In d (save ++ cs) ⊎ In d pending
  tracked_without h t e d live = elim (t d live) [
    | inr r ↦ inr r
    | inl m ↦ elim (In-middle d save c cs m) [
      | inl here ↦ absurd (live (rw here e))
      | inr r ↦ inl r
    ]
  ]

  dead-Progress :
      (q.heap c).status ≡ closed
      → Progress pending now p save cs count (record q { closed_count = suc q.closed_count })
  dead-Progress e =
      drop-Progress q.heap count
        (record {
          sound = g.inv.sound;
          fits = g.inv.fits;
          tracked = tracked_without q.heap g.inv.tracked e;
          unmade = g.inv.unmade;
          stopped = g.inv.stopped;
        })
        g.changed g.live (ground (arith, g.seen)) g.reserve

  reaped-Progress :
      (q.heap c).status ≡ idle
      → is_surplus q (now c) c (suc count) ≡ true
      → Progress pending now p save cs
          (suc count)
          (record (put c (shut (q.heap c)) q) { closed_count = suc q.closed_count })
  reaped-Progress e over =
      drop-Progress h (suc count)
        (record {
          sound = i.sound;
          fits = i.fits;
          tracked = tracked_without h i.tracked (rw (update_self q.heap c (shut (q.heap c))) refl);
          unmade = i.unmade;
          stopped = i.stopped;
        })
        changed' live'
        (omega (arith, seen', unmoved cs (Distinct-middle_right save c cs g.distinct)))
        (omega (
          arith,
          g.reserve,
          parts.1,
          same_size,
          unmoved save (Distinct-middle_left save c cs g.distinct),
        ))
    where
      h : ℕ → Connection
      h = update q.heap c (shut (q.heap c))

      i : Inv pending (record q { heap = h; connections = save ++ c ∷ cs })
      i =
          put-Inv pending (record q { connections = save ++ c ∷ cs }) c (shut (q.heap c)) g.inv
            (shut-IsSound (q.heap c)) (λ _. refl)

      parts : (q.idle_timeout < now c - (q.heap c).idle_since) × (pos_part q.min_size < suc count)
      parts = surplus_parts q (now c) c count over

      same_size : pos_part q.min_size ≡ pos_part p.min_size
      same_size = ap (λ (r : Pool). pos_part r.min_size) g.frame

      unmoved : (xs : List ℕ) → ¬ In c xs → idle_in h xs ≡ idle_in q.heap xs
      unmoved xs n = idle_in-update q.heap c (shut (q.heap c)) xs n

      seen' : count + (1 + idle_in q.heap cs) ≡ idle_in p.heap p.connections
      seen' = ground (arith, g.seen)

      changed' : (d : ℕ) → Change now p d (h d)
      changed' = update-all (Change now p) q.heap c (shut (q.heap c)) g.changed (
          reap-Change (g.subset c (In-append_right c save (c ∷ cs) (inl refl))) (g.changed c) e (
            subst (λ t. t < now c - (q.heap c).idle_since)
              (ap (λ (r : Pool). r.idle_timeout) g.frame) parts.0))

      live' : (d : ℕ) → In d save → (h d).status ≢ closed
      live' =
          update-all (λ d v. In d save → v.status ≢ closed) q.heap c (shut (q.heap c)) g.live
            (λ m. absurd (Distinct-middle_left save c cs g.distinct m))

  kept-Progress :
      (q.heap c).status ≢ closed
      → Progress pending now p
          (save ++ c ∷ [])
          cs
          (if is_idle (q.heap c).status then suc count else count)
          q
  kept-Progress live = record {
    inv =
        subst (λ l. Inv pending (record q { connections = l }))
          (sym (append_assoc save (c ∷ []) cs)) g.inv;
    counted = omega (arith, g.counted, length-append save (c ∷ []));
    changed = g.changed;
    live = λ d m. elim (In-append_cases d save (c ∷ []) m) [
      | inl old ↦ g.live d old
      | inr new ↦ elim new [ inl e ↦ rw e live | inr none_left ↦ absurd none_left ]
    ];
    distinct = subst Distinct (sym (append_assoc save (c ∷ []) cs)) g.distinct;
    seen = ground (arith, g.seen);
    reserve = ground (arith, g.reserve, idle_in-append q.heap save (c ∷ []));
    subset = λ d m. g.subset d (subst (In d) (append_assoc save (c ∷ []) cs) m);
    frame = g.frame;
  }

clean_loop-Cleaned :
    {pending : List ℕ} {now : ℕ → ℕ} {p : Pool} (cs : List ℕ) {save : List ℕ} {count : ℕ} {q : Pool}
    → Progress pending now p save cs count q
    → Returns (clean_loop now cs count save q) (Cleaned pending now p)
unfolding clean_loop
clean_loop-Cleaned {pending} [] {save} {count} {q} g = record {
  inv = subst (λ l. Inv pending (record q { connections = l })) (append-nil save) g.inv;
  counted = omega (arith, g.counted);
  changed = g.changed;
  live = g.live;
  distinct = subst Distinct (append-nil save) g.distinct;
  reserve = omega (arith, g.reserve, g.seen);
  subset = λ d m. g.subset d (In-append_left d save [] m);
  frame = ap (λ (r : Pool). record r { connections = save }) g.frame;
}
clean_loop-Cleaned {now} (c ∷ cs) {save} {count} {q} g =
    elim (visit (now c) c count q (q.heap c).status refl (g.inv.sound c)) [
      | dead e r ↦ rw r (clean_loop-Cleaned cs (dead-Progress g e))
      | kept live r ↦ rw r (clean_loop-Cleaned cs (kept-Progress g live))
      | reaped e over r ↦ rw r (clean_loop-Cleaned cs (reaped-Progress g e over))
    ]

-- `clean` returns. It closes no connection but idle ones that have been idle for longer than the
-- timeout, of which it leaves as many as the pool's minimum asks for; it changes no other one; it
-- drops the closed ones from the list, and counts them.
pub clean-Cleaned :
    (pending : List ℕ) (now : ℕ → ℕ) (p : Pool)
    → Inv pending p
    → Distinct p.connections
    → Returns (clean now p) (Cleaned pending now p)
unfolding clean
clean-Cleaned pending now p inv d = clean_loop-Cleaned p.connections (record {
  inv = inv;
  counted = omega arith;
  changed = λ c. same refl;
  live = λ c h. elim h [ ];
  distinct = d;
  seen = omega arith;
  reserve = omega arith;
  subset = λ c m. m;
  frame = refl;
})
