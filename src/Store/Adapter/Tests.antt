-- ===== src/Store/Adapter/Tests.antt =====
-- `Adapter.Configure` on concrete configurations.
use dbstore.Common.{ℕ, ◌≡◌, refl, true, false, String, Option, none, some, List, [], ◌∷◌}
use dbstore.Store.Errors.{Error, opening, configuring, unknown_driver}
use dbstore.Store.Config.{SourceConfig, Config, default_pool_config}
use dbstore.Store.Driver.{open_with}
use dbstore.Store.Throttle.{new_throttle}
use dbstore.Store.Directory.{
  Directory, new_directory, register_begin, register_commit, remove_entry_begin, note_opened,
  close_client, deliver,
}
use dbstore.Store.Adapter.{
  register, in_flight, remove_entry, rollback, configure_sources, configure,
}
use dbstore.Store.Adapter.Rollback.{AllOrNothing, configure-AllOrNothing}

abbrev from : String → SourceConfig
from driver = record { driver = driver; dsn = ""; pool_config = default_pool_config }

abbrev empty : Directory
empty =
    new_directory
      (record { builders = ("mem", record { applies_pool_config = false }) ∷ []; frozen = false })
      true

-- The second source has a driver that nobody registered.
abbrev half_good : Config
half_good = record { sources = ("a", from "mem") ∷ ("b", from "pg") ∷ [] }

abbrev never_fails : SourceConfig → Option Error
never_fails cfg = none

-- The error of a return, the entries that it leaves, and the clients that are closed.
abbrev outcome :
    Option (Option Error × Directory) → Option (Option Error × List (String × ℕ) × List ℕ)
outcome none = none
outcome (some (e, d)) = some (e, d.entries, d.closed_clients)

rolls_back :
    outcome (configure never_fails 7 half_good empty)
    ≡ some (some (configuring "b" (opening "b" (unknown_driver "pg"))), [], 0 ∷ [])
unfolding configure configure_sources rollback remove_entry register in_flight new_directory
    register_begin register_commit remove_entry_begin note_opened close_client deliver open_with
    new_throttle
rolls_back = refl

configure-AllOrNothing_example :
    (e : Option Error) × (d : Directory) × (configure never_fails 7 half_good empty ≡ some (e, d))
    × AllOrNothing half_good.sources empty e d
configure-AllOrNothing_example = configure-AllOrNothing never_fails 7 half_good empty
