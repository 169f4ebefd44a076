-- ===== src/Server/Pool/Clean.antt =====
-- What `clean` of server/pool.go may do to one connection, and what it has done at its end.
pub mod Loop
use mathlib.Core.Path.{subst}
use mathlib.Core.List.{append_assoc, append-nil}
use Prim.Native.Nat.{min}
use wsp.Base.{
  In-middle, ℕ, suc, ◌+◌, ◌-◌, ◌≤◌, ◌<◌, ◌≡◌, refl, sym, ap, ◌≢◌, ◌⊎◌, inl, inr, Bool, true, false,
  List, [], ◌∷◌, ◌++◌, In, Distinct, Distinct-middle_left, Distinct-middle_right, Distinct-remove,
  In-append_cases, length, length-append, Bool-cases, arith, if◌then◌else◌,
}
use wsp.Base.Int.{pos_part}
use wsp.Runtime.{Result, ok, Returns}
use wsp.Server.Connection.{
  ConnectionStatus, idle, busy, closed, Connection, IsSound, shut, close-eq-shut, shut-IsSound,
}
use wsp.Server.Pool.{Pool, update, put, is_idle, is_surplus, clean_connection, clean_loop, clean}
use wsp.Server.Pool.Invariant.{Inv, put-Inv, update_self, update_ne, update-all}

-- How many of the connections are idle.
abbrev pub idle_in : (ℕ → Connection) → List ℕ → ℕ
idle_in h [] = 0
idle_in h (c ∷ cs) = (if is_idle (h c).status then 1 else 0) + idle_in h cs

-- The three ways that `cleanConnection` can go.
pub data Visit (now c count : ℕ) (p : Pool) (r : Result (ℕ × Bool × Pool)) : Type 0 where
  dead : (p.heap c).status ≡ closed → r ≡ ok (count, false, p) → Visit now c count p r
  kept :
      (p.heap c).status ≢ closed
      → r ≡ ok ((if is_idle (p.heap c).status then suc count else count), true, p)
      → Visit now c count p r
  reaped :
      (p.heap c).status ≡ idle
      → is_surplus p now c (suc count) ≡ true
      → r ≡ ok (suc count, false, put c (shut (p.heap c)) p)
      → Visit now c count p r

pub visit :
    (now c count : ℕ) (p : Pool) (s : ConnectionStatus)
    → (p.heap c).status ≡ s
    → IsSound (p.heap c)
    → Visit now c count p (clean_connection now c count p)
unfolding clean_connection
visit now c count p closed e s = dead e (rw (e, clean_connection) refl)
visit now c count p busy e s = kept (rw e (λ h. cc)) (rw (e, clean_connection) refl)
visit now c count p idle e s = elim (Bool-cases (is_surplus p now c (suc count))) [
  | inl over ↦ reaped e over (
      rw (e, clean_connection, over, close-eq-shut (p.heap c) s)
        (rw (update_self p.heap c (shut (p.heap c))) refl))
  | inr within ↦ kept (rw e (λ h. cc)) (rw (e, clean_connection, within) (rw e refl))
]

-- A connection is left as it was, or it was in the list, and idle for too long, and is closed.
pub data Change (now : ℕ → ℕ) (p : Pool) (c : ℕ) (v : Connection) : Type 0 where
  same : v ≡ p.heap c → Change now p c v
  reap :
      In c p.connections
      → (p.heap c).status ≡ idle
      → p.idle_timeout < now c - (p.heap c).idle_since
      → v ≡ shut (p.heap c)
      → Change now p c v

pub surplus_parts :
    (p : Pool) (now c count : ℕ)
    → is_surplus p now c (suc count) ≡ true
    → (p.idle_timeout < now - (p.heap c).idle_since) × (pos_part p.min_size < suc count)
surplus_parts p now c count h = ground arith

pub reap-Change :
    {now : ℕ → ℕ} {p : Pool} {c : ℕ} {v : Connection}
    → In c p.connections
    → Change now p c v
    → v.status ≡ idle
    → p.idle_timeout < now c - v.idle_since
    → Change now p c (shut v)
reap-Change {now} {p} {c} m (same e) i o =
    reap m (rw e at i) (subst (λ v. p.idle_timeout < now c - v.idle_since) e o) (ap shut e)
reap-Change m (reap _ _ _ e) i o = absurd (ground arith)

-- What is not in the list is left alone.
pub Change-unlisted :
    {now : ℕ → ℕ} {p : Pool} {c : ℕ} {v : Connection}
    → ¬ In c p.connections
    → Change now p c v
    → v ≡ p.heap c
Change-unlisted n (same e) = e
Change-unlisted n (reap m _ _ _) = absurd (n m)

-- `clean` changes these three fields alone.
abbrev pub rest_of : Pool → Pool → Pool
rest_of p q = record p { connections = q.connections; closed_count = q.closed_count; heap = q.heap }

-- What `clean` has done when it returns.
pub record Cleaned (pending : List ℕ) (now : ℕ → ℕ) (p q : Pool) : Type 0 where
  pub inv : Inv pending q
  pub counted : q.closed_count + length q.connections ≡ p.closed_count + length p.connections
  pub changed : (c : ℕ) → Change now p c (q.heap c)
  pub live : (c : ℕ) → In c q.connections → (q.heap c).status ≢ closed
  pub subset : (c : ℕ) → In c q.connections → In c p.connections
  pub distinct : Distinct q.connections
  pub reserve :
      min (pos_part p.min_size) (idle_in p.heap p.connections) ≤ idle_in q.heap q.connections
  pub frame : q ≡ rest_of p q
