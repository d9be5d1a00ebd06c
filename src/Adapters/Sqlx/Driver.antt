-- ===== src/Adapters/Sqlx/Driver.antt =====
-- adapters/sqlx: driver.go, and the default drivers of adapter.go. What `sqlx.Connect` gives is an argument.
use dbstore.Common.{
  ℕ, ltb, ℤ, pos, negsuc, Bool, true, false, ◌&&◌, String, str_eq, List, [], ◌∷◌, if◌then◌else◌,
}
use dbstore.Store.Config.{SourceConfig, PoolConfig}
use dbstore.Store.Driver.{
  Builder, DriverRegistry, Registering, registered, panic_frozen, panic_duplicate, register,
}
use dbstore.Adapters.Reply.{Reply, failed, got}

pub record Driver : Type 0 where
  pub driver_name : String

pub data DriverError : Type 0 where
  name_required : DriverError
  connecting : ℕ → DriverError

pub data Connected : Type 0 where
  refused : DriverError → Connected
  connected : ℕ → Connected

abbrev of_reply : Reply ℕ → Connected
of_reply (failed e) = refused (connecting e)
of_reply (got db) = connected db

-- `Driver.Open`
unfoldable pub open_driver : (String → String → Reply ℕ) → Driver → SourceConfig → Connected
open_driver connect d cfg =
    if str_eq d.driver_name ""
    then refused name_required
    else of_reply (connect d.driver_name cfg.dsn)

-- The drivers that `RegisterDefaultDrivers` registers, by name.
unfoldable pub default_drivers : List (String × Driver)
default_drivers =
    ("sqlite", record { driver_name = "sqlite" })
    ∷ ("postgres", record { driver_name = "postgres" })
    ∷ ("mysql", record { driver_name = "mysql" })
    ∷ ("mariadb", record { driver_name = "mysql" })
    ∷ ("clickhouse", record { driver_name = "clickhouse" })
    ∷ []

-- A driver applies pool settings.
abbrev pub builder : Builder
builder = record { applies_pool_config = true }

abbrev after_register : Registering → (DriverRegistry → Registering) → Registering
after_register (registered r) next = next r
after_register panic_frozen next = panic_frozen
after_register panic_duplicate next = panic_duplicate

unfoldable pub register_drivers : List (String × Driver) → DriverRegistry → Registering
register_drivers [] r = registered r
register_drivers ((name, d) ∷ ds) r = after_register (register name builder r) (register_drivers ds)

unfoldable pub register_default_drivers : DriverRegistry → Registering
unfolding register_drivers default_drivers
register_default_drivers r = register_drivers default_drivers r

-- The settings of an `sql.DB`.
pub record Pool : Type 0 where
  pub max_open_conns : ℤ
  pub max_idle_conns : ℤ
  pub max_lifetime : ℕ
  pub max_idle_time : ℕ

abbrev less : ℤ → ℤ → Bool
less (pos m) (pos n) = ltb m n
less (pos m) (negsuc n) = false
less (negsuc m) (pos n) = true
less (negsuc m) (negsuc n) = ltb n m

-- Is a warning logged?
unfoldable pub warns : PoolConfig → Bool
warns cfg =
    less (pos 0) cfg.max_open_conns
    && (less (pos 0) cfg.max_concurrency && less cfg.max_open_conns cfg.max_concurrency)

-- `ApplyPoolConfig`
unfoldable pub apply_pool_config : PoolConfig → Pool → Pool
apply_pool_config cfg pool = record {
  max_open_conns = cfg.max_open_conns;
  max_idle_conns = cfg.max_idle_conns;
  max_lifetime = cfg.max_lifetime;
  max_idle_time = cfg.max_idle_time;
}
