-- ===== src/Client/Pool/Keeper/Hang.antt =====
-- Where the goroutine of the client's pool waits for ever.
use wsp.Base.{ℕ, ◌≡◌, refl, ◌⊎◌, inl, inr, true, false, List, [], ◌∷◌, Bool-cases, ◌==◌, ==_iff}
use wsp.Runtime.{blocks}
use wsp.Client.Config.{Config}
use wsp.Client.Pool.{Connection, PoolSize, Attempt, tally, size_loop, size}
use wsp.Client.Pool.Keeper.{Keeper, get_size, ping_fails, update, on_event, keep}

-- A connection with the reference is in the list.
abbrev pub Listed : ℕ → List Connection → Type 0
Listed ref [] = ⊥
Listed ref (c ∷ cs) = (c.ref ≡ ref) ⊎ Listed ref cs

-- `size` waits for ever once the `keepAlive` of a connection in the list has returned.
size_loop-mute :
    (ref : ℕ) (cs : List Connection) (s : PoolSize)
    → Listed ref cs
    → size_loop (update (λ c. record c { keeper = false }) ref cs) s ≡ blocks
unfolding size_loop
size_loop-mute ref [] s h = elim h [ ]
size_loop-mute ref (c ∷ cs) s (inl e) = rw ((==_iff c.ref ref).1 e) refl
size_loop-mute ref (c ∷ cs) s (inr h) = elim (Bool-cases (c.ref == ref)) [
  | inl hit ↦ rw hit refl
  | inr miss ↦ elim (Bool-cases c.keeper) [
    | inl kept ↦ rw (miss, kept) (size_loop-mute ref cs (tally c.status s) h)
    | inr mute ↦ rw (miss, mute) refl
  ]
]

-- Whenever the pool is asked for its size after a ping of one of its connections has failed, and
-- before it is shut down, its goroutine waits for ever.
pub ping_fails_blocks :
    (attempts : ℕ → Attempt) (config : Config) (k : Keeper) (ref : ℕ)
    → k.is_running ≡ true
    → k.pool.is_shut_down ≡ false
    → Listed ref k.pool.connections
    → keep attempts config (ping_fails ref ∷ get_size ∷ []) k ≡ blocks
unfolding keep on_event size
ping_fails_blocks attempts config k ref up alive h =
    simp (up, alive, size_loop-mute ref k.pool.connections _ h)
