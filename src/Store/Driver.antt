-- ===== src/Store/Driver.antt =====
-- internal/store/driver.go. What `Open` of a builder returns is the environment's choice.
use dbstore.Common.{
  ℕ, Bool, true, false, String, Option, none, some, List, [], ◌∷◌, lookup, if◌then◌else◌,
}
use dbstore.Store.Errors.{Result, ok, err, unknown_driver}
use dbstore.Store.Config.{SourceConfig, PoolConfig}

-- A `DriverBuilder`, and whether it is a `PoolConfigApplier` too.
pub record Builder : Type 0 where
  pub applies_pool_config : Bool

pub record DriverRegistry : Type 0 where
  pub builders : List (String × Builder)
  pub frozen : Bool

abbrev pub new_driver_registry : DriverRegistry
new_driver_registry = record { builders = []; frozen = false }

pub data Registering : Type 0 where
  registered : DriverRegistry → Registering
  panic_frozen panic_duplicate : Registering

unfoldable pub register : String → Builder → DriverRegistry → Registering
register name b r = if r.frozen then panic_frozen else elim (lookup name r.builders) [
  | some _ ↦ panic_duplicate
  | none ↦ registered (record r { builders = (name, b) ∷ r.builders })
]

unfoldable pub freeze : DriverRegistry → DriverRegistry
freeze r = record r { frozen = true }

-- What a call of `open` leaves: the client's number, and whether the pool settings were applied.
pub record Opened : Type 0 where
  pub client : ℕ
  pub tuned : Option PoolConfig

-- `opens` is what the builder's `Open` returns for this configuration.
unfoldable pub open_with : SourceConfig → (Builder → Result ℕ) → DriverRegistry → Result Opened
open_with cfg opens r = elim (lookup cfg.driver r.builders) [
  | none ↦ err (unknown_driver cfg.driver)
  | some b ↦ elim (opens b) [
    | err e ↦ err e
    | ok c ↦ ok (record {
      client = c;
      tuned = if b.applies_pool_config then some cfg.pool_config else none;
    })
  ]
]
