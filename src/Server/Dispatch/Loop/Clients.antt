-- ===== src/Server/Dispatch/Loop/Clients.antt =====
-- The set of clients that the main goroutine of server/server.go keeps pools for: a registration
-- adds one, cleaning only removes, and everybody is told what the set says.
use Prim.Native.String.{String}
use text.Mathlib.Text.{◌==◌ as str_eq}
use text.Mathlib.TextEquality.{eq_iff}
use wsp.Base.{
  ◌+◌, ◌≡◌, refl, ◌∙◌, Bool, true, false, ◌||◌, ◌&&◌, List, [], ◌∷◌, ◌++◌, Option, none, some,
  Bool-cases, inl, inr, arith, if◌then◌else◌,
}
use wsp.Base.Maps.{at, add_at, store, AllAt}
use wsp.Runtime.{ok, ◌>>=◌, WhenOk, WhenOk-bind, WhenOk-any, WhenOk-mono}
use wsp.Server.Pool.{Pool}
use wsp.Server.Pool.Keeper.{is_empty, shut_down, ask_for_size}
use wsp.Server.Dispatch.{
  Server, World, Tally, clean_pool, clean_pools_loop, clean_pools, add_sizes, no_sizes,
}
use wsp.Server.Dispatch.Register.{Fits, key_of}
use wsp.Server.Dispatch.Stats.{Stats, PoolStat, of_size, stats, pool_stats, one_stat, all_stats}
use wsp.Server.Dispatch.Loop.{
  Event, new_pool, get_pool_asked, cleaner_ticked, get_stats_asked, used, Reply, rep_pool,
  rep_stats,
}

abbrev pub is_some {ℓ} : {A : Type ℓ} → Option A → Bool
is_some none = false
is_some (some a) = true

-- The clients that have a pool.
abbrev pub Clients : Type 0
Clients = String → Bool

abbrev pub clients : Server → Clients
clients s key = is_some (at s.pools key)

-- Whether the statistics know the client that was asked for.
abbrev pub is_known : List (String × PoolStat) → Bool
is_known ((k, of_size z) ∷ []) = true
is_known _ = false

-- What may happen to the set of clients at an event, and what is replied.
abbrev pub Spec : Event → Clients → Clients → Reply → Type 0
Spec (new_pool w client) a b reply =
    (key : String) → b key ≡ (if str_eq (key_of w client) key then true else a key)
Spec (get_pool_asked thread key) a b reply =
    ((k : String) → b k ≡ a k) × (p : Option Pool) × (reply ≡ rep_pool p) × (is_some p ≡ a key)
Spec (cleaner_ticked w) a b reply = (key : String) → (a key && b key) ≡ b key
Spec (get_stats_asked w id) a b reply =
    ((k : String) → b k ≡ a k)
    × (z : Stats) × (reply ≡ rep_stats z)
    × ((key : String)
        → (if str_eq id "" then is_some (at z.pools key) else is_known z.pools)
          ≡ (if str_eq id "" then a key else a id))
Spec (used key u) a b reply = (k : String) → b k ≡ a k

-- The registrations ask for sizes that the runtime can allocate.
abbrev pub EventFits : Event → Type 0
EventFits (new_pool w client) = Fits w client
EventFits _ = Unit

pub is_some-store :
    {V : Type 0} (m : List (String × V)) (key other : String) (v : V)
    → is_some (at (store m key v) other) ≡ (if str_eq key other then true else is_some (at m other))
unfolding at store
is_some-store [] key other v = ground (arith, eq_iff key other)
is_some-store (entry ∷ rest) key other v = ground (
  arith,
  eq_iff entry.0 key,
  eq_iff entry.0 other,
  eq_iff key other,
  is_some-store rest key other v,
)

is_some-append :
    {V : Type 0} (xs ys : List (String × V)) (key : String)
    → is_some (at (xs ++ ys) key) ≡ (is_some (at xs key) || is_some (at ys key))
unfolding at
is_some-append [] ys key = refl
is_some-append (entry ∷ xs) ys key = ground (arith, is_some-append xs ys key)

is_some-single :
    (k : String) (p q : Pool) (key : String)
    → is_some (at ((k, p) ∷ []) key) ≡ is_some (at ((k, q) ∷ []) key)
unfolding at
is_some-single k p q key = elim (Bool-cases (str_eq k key)) [
  | inl e ↦ rw e refl
  | inr e ↦ rw e refl
]

-- The keys that the loop of `cleanPools` keeps are some of those that it has met.
abbrev From : List (String × Pool) → List (String × Pool) → Tally → Type 0
From kept entries t =
    (key : String)
    → ((is_some (at kept key) || is_some (at entries key)) && is_some (at t.kept key))
      ≡ is_some (at t.kept key)

kept_before : (k e : Bool) → ((k || e) && k) ≡ k
kept_before true e = refl
kept_before false true = refl
kept_before false false = refl

kept_new : (k e : Bool) → ((k || e) && (k || e)) ≡ (k || e)
kept_new true e = refl
kept_new false true = refl
kept_new false false = refl

kept_then :
    (k e r m n : Bool) → ((k || e) && m) ≡ m → ((m || r) && n) ≡ n → ((k || (e || r)) && n) ≡ n
kept_then true e r m n h g = refl
kept_then false true r m n h g = refl
kept_then false false true m n h g = refl
kept_then false false false true n h g = cc
kept_then false false false false n h g = g

module _ (w : World) where
  clean_pool-From :
      (entry : String × Pool) (t : Tally) → WhenOk (clean_pool w entry t) (From t.kept (entry ∷ []))
  unfolding clean_pool
  clean_pool-From entry t =
      WhenOk-bind (is_empty w.remote w.clock entry.1) _ (λ _. Unit {0}) _ (WhenOk-any _)
        λ (empty, q) _. cases empty q
    where
      cases :
          (empty : Bool) (q : Pool)
          → WhenOk
              (elim empty [
                | true ↦ do
                  r ← shut_down w.remote q
                  ok (record t { closed = t.closed + r.closed_count })
                | false ↦ do
                  (ps, r) ← ask_for_size w.remote w.now q
                  ok (record t {
                    kept = t.kept ++ (entry.0, r) ∷ [];
                    totals = add_sizes t.totals ps;
                    conns_per_pool = add_at ps.total 1 t.conns_per_pool;
                  })
              ])
              (From t.kept (entry ∷ []))
      cases true q =
          WhenOk-bind (shut_down w.remote q) _ (λ _. Unit {0}) _ (WhenOk-any _)
            λ r _ key. kept_before (is_some (at t.kept key)) (is_some (at (entry ∷ []) key))
      cases false q =
          WhenOk-bind (ask_for_size w.remote w.now q) _ (λ _. Unit {0}) _ (WhenOk-any _)
            λ (ps, r) _ key.
              rw
                (
                  is_some-append t.kept ((entry.0, r) ∷ []) key,
                  is_some-single entry.0 r entry.1 key,
                )
                (kept_new (is_some (at t.kept key)) (is_some (at (entry ∷ []) key)))

  clean_pools_loop-From :
      (entries : List (String × Pool)) (t : Tally)
      → WhenOk (clean_pools_loop w entries t) (From t.kept entries)
  unfolding clean_pools_loop at
  clean_pools_loop-From [] t = λ key. kept_before (is_some (at t.kept key)) false
  clean_pools_loop-From (entry ∷ rest) t =
      WhenOk-bind (clean_pool w entry t) (clean_pools_loop w rest) (From t.kept (entry ∷ [])) _
        (clean_pool-From entry t)
        λ t' h.
          WhenOk-mono (clean_pools_loop w rest t') _ _ (clean_pools_loop-From rest t') λ u g key.
            rw (is_some-append (entry ∷ []) rest key) (
              kept_then (is_some (at t.kept key)) (is_some (at (entry ∷ []) key))
                (is_some (at rest key)) (is_some (at t'.kept key)) (is_some (at u.kept key)) (h key)
                (g key))

  pub clean_pools-From :
      (l : List (String × Pool)) (s : Server)
      → s.pools ≡ l
      → WhenOk
          (clean_pools w s)
          (λ r. (key : String) → (is_some (at l key) && clients r.0 key) ≡ clients r.0 key)
  unfolding clean_pools at
  clean_pools-From [] s e = rw (e, clean_pools) λ key. rw (e, at) refl
  clean_pools-From (entry ∷ rest) s e =
      rw (e, clean_pools)
        (WhenOk-bind (clean_pools_loop w (entry ∷ rest) start) _ (From [] (entry ∷ rest)) _
          (clean_pools_loop-From (entry ∷ rest) start) λ t h. h)
    where
      start : Tally
      start = record { kept = []; closed = s.closed; totals = no_sizes; conns_per_pool = [] }

pub AllAt-mono :
    {V : Type 0} (P Q : V → Type 0) (m : List (String × V))
    → ((v : V) → P v → Q v)
    → AllAt P m
    → AllAt Q m
AllAt-mono P Q [] f h = tt
AllAt-mono P Q (entry ∷ rest) f (h, hs) = (f entry.1 h, AllAt-mono P Q rest f hs)

all_stats-at :
    (w : World) (m : List (String × Pool)) (key : String)
    → is_some (at (all_stats w.remote w.now m) key) ≡ is_some (at m key)
unfolding all_stats at
all_stats-at w [] key = refl
all_stats-at w (entry ∷ rest) key = ground (arith, all_stats-at w rest key)

is_known-one_stat :
    (w : World) (id : String) (p : Option Pool)
    → is_known (one_stat w.remote w.now id p) ≡ is_some p
is_known-one_stat w id none = refl
is_known-one_stat w id (some p) = refl

-- The statistics of all pools have the keys of the table; those of one are there when the client
-- has one.
pub is_known-stats :
    (w : World) (id : String) (s : Server) (key : String)
    → (if str_eq id ""
        then is_some (at (stats w.remote w.now id s).pools key)
        else is_known (stats w.remote w.now id s).pools)
      ≡ (if str_eq id "" then clients s key else clients s id)
unfolding pool_stats
is_known-stats w id s key = elim (Bool-cases (str_eq id "")) [
  | inl e ↦ rw e (all_stats-at w s.pools key)
  | inr e ↦ rw e (is_known-one_stat w id (at s.pools id))
]

-- Storing under a key that is there keeps the keys.
pub is_some-store_found :
    (m : List (String × Pool)) (key k : String) (p q : Pool)
    → at m key ≡ some p
    → is_some (at (store m key q) k) ≡ is_some (at m k)
is_some-store_found m key k p q found = elim (Bool-cases (str_eq key k)) [
  | inl e ↦ is_some-store m key k q ∙ ground (arith, e, eq_iff key k, found)
  | inr e ↦ is_some-store m key k q ∙ rw e refl
]
