-- ===== src/Client/Targets/Rotation.antt =====
-- The round robin of client/client.go: a restart turns to the next target.
use Prim.Native.String.{String}
use text.Mathlib.Text.{◌==◌ as str_eq}
use mathlib.Core.Path.{subst}
use native.Mathlib.Nat.{add-zero, zero-add, mod-eq_of_lt, mod_self, mod-lt, mod-add-mod}
use wsp.Base.{
  ◌==◌, ◌*◌, sym, leb, ap, ◌∙◌, ltb, ℕ, zero, suc, ◌+◌, ◌%◌, ◌≤◌, ◌<◌, ◌≡◌, refl, ◌≢◌, inl, inr,
  true, false, List, [], ◌∷◌, some, length, Bool-cases, arith, if◌then◌else◌,
}
use wsp.Base.Int.{pos, negsuc, ◌+ℤ◌}
use wsp.Base.Maps.{at, at-store_self, at-store_ne}
use wsp.Runtime.{Result, ok, ◌>>=◌, Returns, Returns-bind, Returns-mono}
use wsp.Client.Config.{Config, second, RoundRobin, check_config, check_round_robin}
use wsp.Client.Pool.{Attempt, greeting_fails}
use wsp.Client.Pool.Keeper.{Keeper}
use wsp.Client.Pool.Keeper.{start as start_pool}
use wsp.Client.Pool.Keeper.Run.{start-IsKept}
use wsp.Client.Targets.{
  Client, new_client, nth, is_active, start_target, next_target, start_one_pool, start,
  shut_down_all, shutdown, restart,
}

shut_down_all-inactive :
    (pools : List (String × Keeper)) (key : String)
    → is_active (at (shut_down_all pools) key) ≡ false
unfolding shut_down_all at
shut_down_all-inactive [] key = refl
shut_down_all-inactive (e ∷ rest) key = elim (Bool-cases (str_eq e.0 key)) [
  | inl hit ↦ rw hit refl
  | inr miss ↦ rw miss (shut_down_all-inactive rest key)
]

-- Exactly the pool of target `t` is active.
pub record Turned (config : Config) (t : ℕ) (c : Client) : Type 0 where
  pub same : c.config ≡ config
  pub current : c.target ≡ pos t
  pub active : (key : String) → nth config.targets t ≡ ok key → is_active (at c.pools key) ≡ true
  pub alone : (key : String) → nth config.targets t ≢ ok key → is_active (at c.pools key) ≡ false

start_target-active :
    (attempts : String → ℕ → Attempt) (now last_conn : ℕ) (key : String) (c : Client)
    → ((t : String) (i : ℕ) → attempts t i ≢ greeting_fails)
    → ((other : String) → is_active (at c.pools other) ≡ false)
    → Returns (start_target attempts now last_conn key c) (λ d.
      (d.config ≡ c.config)
      × (d.target ≡ c.target)
      × (is_active (at d.pools key) ≡ true)
      × ((other : String) → key ≢ other → is_active (at d.pools other) ≡ false))
unfolding start_target
start_target-active attempts now last_conn key c greets none_active = rw (none_active key) (
    Returns-bind (start_pool (attempts key) c.config now last_conn) _ _ _
      (start-IsKept (attempts key) c.config now last_conn (greets key))
      λ k h. (
        refl,
        refl,
        rw (at-store_self c.pools key k, h.0.flag) refl,
        λ other n. rw (at-store_ne c.pools key other k n) (none_active other),
      ))

nth-ok : (ts : List String) (i : ℕ) → i < length ts → (t : String) × (nth ts i ≡ ok t)
nth-ok [] i h = absurd (omega (arith, h))
nth-ok (t ∷ ts) zero h = (t, refl)
nth-ok (t ∷ ts) (suc i) h = nth-ok ts i (omega (arith, h))

-- The pool that `startOnePool` starts, when none is active.
start_one_pool-Turned :
    (attempts : String → ℕ → Attempt) (now t : ℕ) (c : Client)
    → ((t : String) (i : ℕ) → attempts t i ≢ greeting_fails)
    → ((key : String) → is_active (at c.pools key) ≡ false)
    → t < length c.config.targets
    → next_target c.config c.target ≡ pos t
    → Returns (start_one_pool attempts now c) (Turned c.config t)
unfolding start_one_pool
start_one_pool-Turned attempts now t c greets none_active small e =
    let (key, hit) = nth-ok c.config.targets t small in
    rw (e, hit)
      (Returns-mono (start_target attempts now now key (record c { target = pos t })) _ _
        (start_target-active attempts now now key (record c { target = pos t }) greets none_active)
        λ d h. record {
          same = h.0;
          current = h.1;
          active = λ other e.
              let key_other : key ≡ other = cc in
              subst (λ x. is_active (at d.pools x) ≡ true) key_other h.2;
          alone = λ other n. h.3 other (λ e. n (hit ∙ ap ok e));
        })

next_target-mod :
    (config : Config) (t : ℕ)
    → t < length config.targets
    → next_target config (pos t) ≡ pos ((t + 1) % length config.targets)
unfolding next_target ◌+ℤ◌
next_target-mod config t small = elim (Bool-cases (ltb (t + 1) (length config.targets))) [
  | inl inside ↦
      let e : (t + 1) % length config.targets ≡ t + 1 = mod-eq_of_lt (ground (arith, inside)) in
      ground (arith, e)
  | inr last ↦
      let whole : t + 1 ≡ length config.targets = ground (arith, last, small) in
      let e : (t + 1) % length config.targets ≡ 0 =
        ap (λ x. x % length config.targets) whole ∙ mod_self (length config.targets) in
      ground (arith, e, whole)
]

-- One restart.
restart_step-Turned :
    (attempts : String → ℕ → Attempt) (now t : ℕ) (r : RoundRobin) (c : Client)
    → ((t : String) (i : ℕ) → attempts t i ≢ greeting_fails)
    → c.config.round_robin ≡ some r
    → t < length c.config.targets
    → c.target ≡ pos t
    → Returns (restart attempts now c) (Turned c.config ((t + 1) % length c.config.targets))
unfolding restart start shutdown
restart_step-Turned attempts now t r c greets robin small e = simp robin (
    start_one_pool-Turned attempts now ((t + 1) % length c.config.targets) (shutdown c) greets
      (shut_down_all-inactive c.pools) (mod-lt (t + 1) (omega (arith, small)))
      (rw e (next_target-mod c.config t small)))

-- The client restarts at these times.
abbrev pub restarts : (String → ℕ → Attempt) → List ℕ → Client → Result Client
restarts attempts [] c = ok c
restarts attempts (now ∷ times) c = do d ← restart attempts now c; restarts attempts times d

restarts-Turned :
    (attempts : String → ℕ → Attempt) (times : List ℕ) (t : ℕ) (r : RoundRobin) (config : Config)
    (c : Client)
    → ((t : String) (i : ℕ) → attempts t i ≢ greeting_fails)
    → config.round_robin ≡ some r
    → t < length config.targets
    → Turned config t c
    → Returns
        (restarts attempts times c)
        (Turned config ((t + length times) % length config.targets))
restarts-Turned attempts [] t r config c greets robin small h =
    let e : (t + 0) % length config.targets ≡ t =
      ap (λ i. i % length config.targets) (add-zero t) ∙ mod-eq_of_lt small in
    rw e h
restarts-Turned attempts (now ∷ times) t r config c greets robin small h =
    let t' = (t + 1) % length config.targets in
    let few : 0 < length config.targets = omega (arith, small) in
    Returns-bind (restart attempts now c) (restarts attempts times) (Turned config t') _
      (subst (λ g. Returns (restart attempts now c) (Turned g ((t + 1) % length g.targets))) h.same
        (restart_step-Turned attempts now t r c greets (ap (λ g. g.round_robin) h.same ∙ robin)
          (subst (λ g. t < length g.targets) (sym h.same) small) h.current))
      λ d turned.
        Returns-mono (restarts attempts times d) _ _
          (restarts-Turned attempts times t' r config d greets robin (mod-lt (t + 1) few) turned)
          λ f g.
            subst (λ i. Turned config i f)
              (mod-add-mod (t + 1) (length config.targets) (length times)
                ∙ ap (λ i. i % length config.targets) (omega arith))
              g

start_restarts-Turned :
    (attempts : String → ℕ → Attempt) (g : Config) (r : RoundRobin) (now : ℕ) (times : List ℕ)
    → ((t : String) (i : ℕ) → attempts t i ≢ greeting_fails)
    → g.round_robin ≡ some r
    → 0 < length g.targets
    → Returns
        (start attempts now (record { config = g; target = negsuc 0; pools = [] })
          >>= restarts attempts times)
        (Turned g (length times % length g.targets))
unfolding start next_target ◌+ℤ◌ at
start_restarts-Turned attempts g r now times greets robin enough =
    let fresh : Client = record { config = g; target = negsuc 0; pools = [] } in
    let first : next_target g (negsuc 0) ≡ pos 0 = ground (arith, enough) in
    simp robin (
      Returns-bind (start_one_pool attempts now fresh) (restarts attempts times) (Turned g 0)
        (Turned g (length times % length g.targets))
        (start_one_pool-Turned attempts now 0 fresh greets (λ key. refl) enough first)
        λ c h.
          Returns-mono (restarts attempts times c) _ _
            (restarts-Turned attempts times 0 r g c greets robin enough h)
            λ f turned.
              subst (λ i. Turned g i f) (ap (λ i. i % length g.targets) (zero-add (length times)))
                turned)

check_round_robin-some :
    (targets : List String) (r : RoundRobin)
    → 2 ≤ length targets
    → (q : RoundRobin) × (check_round_robin targets (some r) ≡ some q)
check_round_robin-some targets r enough =
    let many : leb (length targets) 1 ≡ false = ground (arith, enough) in
    let value : RoundRobin =
      if r.retry_interval == 0 then record { retry_interval = 60 * second } else r in
    (value, rw many refl)

-- Take a configuration for the round robin with two targets at least. If no greeting fails, the
-- start of the client and any number of restarts return, so none meets an active pool: afterwards
-- the target is the one that many places down the list, counted round, its pool is active, and no
-- other pool is.
pub round_robin-Turned :
    (attempts : String → ℕ → Attempt) (config : Config) (r : RoundRobin) (now : ℕ) (times : List ℕ)
    → ((t : String) (i : ℕ) → attempts t i ≢ greeting_fails)
    → config.round_robin ≡ some r
    → 2 ≤ length config.targets
    → Returns
        (start attempts now (new_client config) >>= restarts attempts times)
        (Turned (check_config config) (length times % length config.targets))
unfolding check_config
round_robin-Turned attempts config r now times greets robin enough =
    let (q, e) = check_round_robin-some config.targets r enough in
    start_restarts-Turned attempts (check_config config) q now times greets
      (ap (check_round_robin config.targets) robin ∙ e) (omega (arith, enough))
