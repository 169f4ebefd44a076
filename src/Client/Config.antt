-- ===== src/Client/Config.antt =====
-- `Config` and `NewClient` of client/client.go. Durations are numbers of nanoseconds.
use Prim.Native.String.{String}
use wsp.Base.{
  ◌≡◌, refl, ℕ, ◌*◌, ◌^◌, List, [], ◌∷◌, Option, none, some, length, ◌==◌, ltb, leb, if◌then◌else◌,
}
use wsp.Base.Int.{ℤ, pos}

abbrev pub second : ℕ
second = 10 ^ 9

-- `RoundRobinConfig`, whose `Callback` is left out.
pub record RoundRobin : Type 0 where
  pub retry_interval : ℕ

pub record Config : Type 0 where
  pub name : String
  pub id : String
  pub client_ids : List String
  pub targets : List String
  pub pool_idle_size : ℤ
  pub pool_max_size : ℤ
  pub secret_key : String
  pub clean_interval : ℕ
  pub backoff : ℕ
  pub max_backoff : ℕ
  pub backoff_reset : ℕ
  pub round_robin : Option RoundRobin

abbrev pub default_max_backoff : ℕ
default_max_backoff = 30 * second

abbrev pub default_backoff_reset : ℕ
default_backoff_reset = 10 * second

-- The defaults of `NewClient` for the round robin: it needs two targets.
abbrev pub check_round_robin : List String → Option RoundRobin → Option RoundRobin
check_round_robin targets none = none
check_round_robin targets (some r) =
    if leb (length targets) 1
    then none
    else some (if r.retry_interval == 0 then record { retry_interval = 60 * second } else r)

-- `NewConfig`; what it does not name is empty.
abbrev pub new_config : Config
new_config = record {
  name = "";
  id = "";
  client_ids = [];
  targets = "ws://127.0.0.1:8080/register" ∷ [];
  pool_idle_size = pos 10;
  pool_max_size = pos 100;
  secret_key = "";
  clean_interval = second;
  backoff = 0;
  max_backoff = default_max_backoff;
  backoff_reset = default_backoff_reset;
  round_robin = none;
}

-- The configuration as `NewClient` leaves it.
unfoldable pub check_config : Config → Config
check_config c = record c {
  clean_interval = if ltb c.clean_interval second then second else c.clean_interval;
  max_backoff = if c.max_backoff == 0 then default_max_backoff else c.max_backoff;
  backoff_reset = if c.backoff_reset == 0 then default_backoff_reset else c.backoff_reset;
  round_robin = check_round_robin c.targets c.round_robin;
}

-- `NewConfig` gives what `NewClient` would set.
new_config-checked : check_config new_config ≡ new_config
unfolding check_config
new_config-checked = refl
