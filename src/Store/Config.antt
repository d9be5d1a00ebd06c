-- ===== src/Store/Config.antt =====
-- internal/store/config.go. Durations are nanoseconds.
use dbstore.Common.{ℕ, ◌*◌, ◌^◌, ℤ, pos, String, List}

pub record PoolConfig : Type 0 where
  pub max_open_conns : ℤ
  pub max_idle_conns : ℤ
  pub max_lifetime : ℕ
  pub max_idle_time : ℕ
  pub max_concurrency : ℤ

pub record SourceConfig : Type 0 where
  pub driver : String
  pub dsn : String
  pub pool_config : PoolConfig

-- The entries of the map, in the order of the iteration.
pub record Config : Type 0 where
  pub sources : List (String × SourceConfig)

pub record SourceInfo : Type 0 where
  pub name : String
  pub driver : String
  pub created_at : ℕ
  pub max_concurrency : ℤ

abbrev minute : ℕ
minute = 60 * 10 ^ 9

abbrev pub default_pool_config : PoolConfig
default_pool_config = record {
  max_open_conns = pos 10;
  max_idle_conns = pos 2;
  max_lifetime = 30 * minute;
  max_idle_time = 5 * minute;
  max_concurrency = pos 5;
}
