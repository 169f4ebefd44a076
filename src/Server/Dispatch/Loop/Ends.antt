-- ===== src/Server/Dispatch/Loop/Ends.antt =====
-- The end of `StartDispatcher` of server/server.go.
use Prim.Native.String.{String}
use Prim.Native.Nat.{max}
use wsp.Base.{
  zero, suc, ◌≤◌, ◌<◌, ◌∙◌, ◌⊎◌, inl, inr, arith, Option, none, some, ℕ, ◌≡◌, refl, Bool, true,
  false, List, [], ◌∷◌, Every, length,
}
use wsp.Base.Maps.{at}
use wsp.Runtime.{
  Returns, Returns-bind, Returns-and, WhenOk, WhenOk-bind, WhenOk-any, Returns-ok, Result, ok,
  blocks,
}
use wsp.Server.Pool.{Pool}
use wsp.Server.Pool.Lifecycle.Shutdown.{IsStopped}
use wsp.Server.Dispatch.{
  Server, World, PoolConfig, register_pool, pool_for, clean_pools, clean_pools_loop, get_pool,
  shut_pools, shutdown, new_server, GetPoolMessage, wait_for,
}
use wsp.Server.Pool.Keeper.{register}
use wsp.Server.Dispatch.Register.{AllRunning, key_of}
use wsp.Server.Dispatch.Clean.{shut_pools-IsStopped}
use wsp.Server.Dispatch.Loop.{
  Use, Event, Reply, new_pool, get_pool_asked, cleaner_ticked, get_stats_asked, used, use_pool,
  use_entry, on_event, run, start_dispatcher,
}
use wsp.Server.Dispatch.Loop.Refines.{AllFit, run-Refines}

-- The channels that `shutdown` closes are open, or all are closed, in a server with so many
-- dispatchers.
abbrev pub AllFlags : ℕ → Bool → Server → Type 0
AllFlags n b s =
    (s.dispatchers ≡ n)
    × (s.dispatcher_open ≡ b)
    × (s.get_pool_open ≡ b)
    × (s.rep_pool_open ≡ b)
    × (s.get_stats_open ≡ b)
    × (s.rep_stats_open ≡ b)

clean_pools-AllFlags :
    (n : ℕ) (w : World) (s : Server)
    → AllFlags n true s
    → WhenOk (clean_pools w s) (λ r. AllFlags n true r.0)
unfolding clean_pools
clean_pools-AllFlags n w s h = go s.pools refl
  where
    go : (l : _) → s.pools ≡ l → WhenOk (clean_pools w s) (λ r. AllFlags n true r.0)
    go [] e = simp (e, clean_pools) h
    go (entry ∷ rest) e =
        simp (e, clean_pools)
          (WhenOk-bind (clean_pools_loop w (entry ∷ rest) _) _ _ _ (WhenOk-any _) λ t _. h)

register_pool-AllFlags :
    (n : ℕ) (w : World) (client : PoolConfig) (s : Server)
    → AllFlags n true s
    → WhenOk (register_pool w client s) (AllFlags n true)
unfolding register_pool
register_pool-AllFlags n w client s h =
    WhenOk-bind (pool_for w client (key_of w client) s) _ _ _ (WhenOk-any _)
      λ p _. WhenOk-bind (register w.remote w.now w.clock p) _ _ _ (WhenOk-any _) λ q _. h

use_entry-AllFlags :
    (n : ℕ) (key : String) (u : Use) (s : Server) (entry : Option Pool)
    → AllFlags n true s
    → WhenOk (use_entry key u s entry) (AllFlags n true)
use_entry-AllFlags n key u s none h = h
use_entry-AllFlags n key u s (some p) h = WhenOk-bind (use_pool u p) _ _ _ (WhenOk-any _) λ q _. h

on_event-AllFlags :
    (n : ℕ) (e : Event) (s : Server)
    → AllFlags n true s
    → WhenOk (on_event e s) (λ r. AllFlags n true r.0)
unfolding on_event get_pool
on_event-AllFlags n (new_pool w client) s h =
    WhenOk-bind (register_pool w client s) _ _ _ (register_pool-AllFlags n w client s h) λ t g. g
on_event-AllFlags n (get_pool_asked thread key) s h = h
on_event-AllFlags n (cleaner_ticked w) s h =
    WhenOk-bind (clean_pools w s) _ _ _ (clean_pools-AllFlags n w s h) λ r g. g
on_event-AllFlags n (get_stats_asked w id) s h = h
on_event-AllFlags n (used key u) s h =
    WhenOk-bind (use_entry key u s (at s.pools key)) _ _ _
      (use_entry-AllFlags n key u s (at s.pools key) h) λ t g. g

run-AllFlags :
    (n : ℕ) (es : List Event) (s : Server)
    → AllFlags n true s
    → WhenOk (run es s) (λ r. AllFlags n true r.0)
unfolding run
run-AllFlags n [] s h = h
run-AllFlags n (e ∷ es) s h =
    WhenOk-bind (on_event e s) _ _ _ (on_event-AllFlags n e s h)
      λ r g. WhenOk-bind (run es r.0) _ _ _ (run-AllFlags n es r.0 g) λ u k. k

-- How `shutdown` leaves the server, and the pools that it had before.
abbrev pub IsDown : Server → Server × List Pool → Type 0
IsDown before r =
    (r.0.pools ≡ [])
    × AllFlags before.dispatchers false r.0
    × (length r.1 ≡ length before.pools)
    × Every IsStopped r.1

-- How `shutdown` ends, from this server and with these messages of the dispatchers.
pub data Ending (before : Server) (messages : List GetPoolMessage) (r : Result (Server × List Pool))
    : Type 0 where
  ends : before.dispatchers ≤ length messages → Returns r (IsDown before) → Ending before messages r
  waits_for_ever : length messages < before.dispatchers → r ≡ blocks → Ending before messages r

-- Enough messages let the loop go on, and with fewer it waits.
wait_for-cases :
    (n : ℕ) (messages : List GetPoolMessage)
    → ((n ≤ length messages) × Returns (wait_for n messages) (λ _. Unit))
      ⊎ ((length messages < n) × (wait_for n messages ≡ blocks))
unfolding wait_for
wait_for-cases zero messages = inl (omega arith, tt)
wait_for-cases (suc n) [] = inr (omega arith, refl)
wait_for-cases (suc n) (m ∷ messages) = elim (wait_for-cases n messages) [
  | inl (h, r) ↦ inl (omega (arith, h), r)
  | inr (h, e) ↦ inr (omega (arith, h), e)
]

shutdown-Ending :
    (n : ℕ) (w : World) (messages : List GetPoolMessage) (s : Server)
    → AllRunning s
    → AllFlags n true s
    → Ending s messages (shutdown w messages s)
unfolding shutdown
shutdown-Ending n w messages s all (_, a, b, c, d, e) =
    elim (wait_for-cases s.dispatchers messages) [
      | inl (enough, r) ↦
          let (rest, f, _) = Returns-ok (wait_for s.dispatchers messages) r in
          ends enough (
            simp (a, b, c, d, e, f)
              (Returns-bind (shut_pools w s.pools) _ _ _ (shut_pools-IsStopped w s.pools all)
                λ qs (n, st). (refl, (refl, refl, refl, refl, refl, refl), n, st)))
      | inr (few, f) ↦ waits_for_ever few (simp (a, f))
    ]

-- `StartDispatcher` on a new server: after any sequence of events of which the registrations ask
-- for sizes that the runtime can allocate, the loop ends and `shutdown` waits for as many messages
-- of the dispatchers as there are dispatchers, one at least. If they send fewer, because one waits
-- for an idle connection, say, `shutdown` waits for ever. Otherwise it returns, none of its closes
-- panics, the table is empty, its five channels are closed and every pool that was left has been
-- stopped.
pub start_dispatcher-IsDown :
    (w : World) (dispatchers idle_timeout : ℕ) (es : List Event) (messages : List GetPoolMessage)
    → AllFit es
    → (u : Server × List Reply) × (run es (new_server dispatchers idle_timeout) ≡ ok u)
      × (u.0.dispatchers ≡ max 1 dispatchers)
      × Ending u.0 messages (start_dispatcher w es messages (new_server dispatchers idle_timeout))
unfolding start_dispatcher new_server
start_dispatcher-IsDown w dispatchers idle_timeout es messages fits =
    let (u, e, (h, flags)) = Returns-ok (run es s) (
      Returns-and (run es s) _ _ (run-Refines es s tt fits)
        (run-AllFlags s.dispatchers es s (refl, refl, refl, refl, refl, refl))) in
    (u, e, flags.0 ∙ ground arith, rw e (shutdown-Ending s.dispatchers w messages u.0 h.0 flags))
  where
    s : Server
    s = new_server dispatchers idle_timeout
