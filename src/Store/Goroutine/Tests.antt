-- ===== src/Store/Goroutine/Tests.antt =====
-- Runs of internal/store by given schedules, and the theorems at the states that they reach.
use dbstore.Common.{
  ℕ, ◌+◌, ◌≤◌, ◌<◌, ◌≡◌, ◌≢◌, refl, String, true, false, none, some, List, [], ◌∷◌, ◌++◌, arith,
  pos, count, ids, total, get_elem?, inl, ◌↔◌,
}
use dbstore.Store.Config.{SourceConfig, default_pool_config}
use dbstore.Store.Throttle.{sem}
use dbstore.Store.Directory.{Directory, register_begin, Lifecycle}
use dbstore.Store.Driver.{Builder, DriverRegistry, register, registered, freeze}
use dbstore.Store.Goroutine.{move}
use dbstore.Store.Protocol.{
  registers, removes, removes_all, runs, calls, go, opens, at, ends, returns, Pc, no_call, draining,
  running, releasing,
}
use dbstore.Store.Goroutine.System.{
  Run, Turn, starting, stepping, registering, initial, run, stop, step, starts,
}
use dbstore.Store.Goroutine.Ownership.{holds}
use dbstore.Store.Goroutine.InFlight.{in_flight, has_slot}
use dbstore.Store.Goroutine.Locks.{holds_mu, holds_observer_mu, in_opening}
use dbstore.Store.Goroutine.Quiet.{closes}
use dbstore.Store.Goroutine.Keys.{adds, drops, occurs}
use dbstore.Store.Goroutine.Gauge.{grants, completions, observed}
use dbstore.Store.Goroutine.Safety.{
  client_in_one_place, no_use_after_close, throttle_bound, remove_all_complete, callbacks_in_order,
  names_tally, callbacks_pair,
}
use dbstore.Store.Goroutine.Stale.{drivers_fixed}
use dbstore.Store.Goroutine.Progress.{
  IsEnabled, active_goroutine_moves, locks_free_up, drain_waits_for_its_entry,
}

abbrev cfg : SourceConfig
cfg = record {
  driver = "mem";
  dsn = "";
  pool_config = record default_pool_config { max_concurrency = pos 1 };
}

-- Goroutine 0 opens "a", and goroutine 1 gets into `fn` on it.
abbrev opening_schedule : List Turn
opening_schedule =
    registering "mem" (record { applies_pool_config = true })
    ∷ starting
    ∷ starting
    ∷ stepping 0 (calls (registers "a" cfg))
    ∷ stepping 0 opens
    ∷ stepping 0 (at 7)
    ∷ stepping 0 go
    ∷ stepping 0 go
    ∷ stepping 0 go
    ∷ stepping 0 go
    ∷ stepping 1 (calls (runs "a"))
    ∷ stepping 1 go
    ∷ stepping 1 go
    ∷ stepping 1 go
    ∷ []

-- Goroutine 0 removes "a", up to the wait for goroutine 1.
abbrev removing_schedule : List Turn
removing_schedule =
    stepping 0 (calls (removes "a" none)) ∷ stepping 0 go ∷ stepping 0 go ∷ stepping 0 go ∷ []

-- `fn` returns, and goroutine 1 gets to its `Release`.
abbrev ending_schedule : List Turn
ending_schedule = stepping 1 (ends (returns none)) ∷ stepping 1 go ∷ []

-- Goroutine 1 is through, and goroutine 0 closes the directory.
abbrev closing_schedule : List Turn
closing_schedule =
    stepping 1 go
    ∷ stepping 1 go
    ∷ stepping 0 (calls removes_all)
    ∷ stepping 0 go
    ∷ stepping 0 go
    ∷ stepping 0 go
    ∷ stepping 0 go
    ∷ stepping 0 go
    ∷ stepping 0 go
    ∷ stepping 0 go
    ∷ []

abbrev busy : Run true
busy = run (initial true) opening_schedule

abbrev removing : Run true
removing = run (initial true) (opening_schedule ++ removing_schedule)

abbrev reserving_lock : Run true
reserving_lock = run (initial true) (opening_schedule ++ stepping 0 (calls (removes "a" none)) ∷ [])

abbrev releasing_slot : Run true
releasing_slot = run (initial true) (opening_schedule ++ removing_schedule ++ ending_schedule)

busy_state :
    (get_elem? busy.last.threads 1 ≡ some (running "a" 0)) × (busy.last.entries ≡ ("a", 0) ∷ [])
unfolding run
busy_state = (refl, refl)

-- Everything is closed while nothing runs.
abbrev shut_down : Run true
shut_down = run (initial true) (opening_schedule ++ ending_schedule ++ closing_schedule)

client_in_one_place_example :
    count 0 (ids busy.last.entries)
      + count 0 busy.last.closed_clients
      + total (holds 0) busy.last.threads
    ≡ 1
unfolding run
client_in_one_place_example = client_in_one_place busy.reach 0

no_use_after_close_example :
    (count 0 removing.last.closed_clients ≡ 0) × (total (closes 0) removing.last.threads ≡ 0)
unfolding run
no_use_after_close_example =
    no_use_after_close removing.reach 1 (running "a" 0) 0 refl (omega arith)

throttle_bound_example : total (has_slot 0) busy.last.threads ≤ 1
unfolding run
throttle_bound_example =
    throttle_bound busy.reach 0
      (record {
        driver = "mem";
        throttle = sem 1 0;
        max_concurrency = pos 1;
        created_at = 7;
        wg = 1;
      })
      0 refl refl

remove_all_complete_example :
    (shut_down.last.closed ≡ true)
    × (shut_down.last.entries ≡ [])
    × (total in_opening shut_down.last.threads ≡ 0)
    × ((c : ℕ)
        → c < shut_down.last.next_client
        → count c shut_down.last.closed_clients + total (holds c) shut_down.last.threads ≡ 1)
unfolding run
remove_all_complete_example = remove_all_complete shut_down.reach 0 refl

callbacks_in_order_example :
    (later : List Lifecycle) × (removing.last.history ≡ removing.last.delivered ++ later)
    × (removing.last.mu ≡ false → removing.last.observer_mu ≡ false → later ≡ [])
unfolding run
callbacks_in_order_example = callbacks_in_order removing.reach refl

names_tally_example :
    (total (adds "a") removing.last.history
      ≡ total (drops "a") removing.last.history + occurs "a" removing.last.entries)
    × (occurs "a" removing.last.entries ≤ 1)
names_tally_example = names_tally removing.reach "a"

callbacks_pair_example :
    total (grants "a") busy.last.run_events
    ≡ total (completions "a") busy.last.run_events + total (observed "a") busy.last.threads
unfolding run
callbacks_pair_example = callbacks_pair busy.reach "a" refl

-- A driver is registered, and goroutine 0 has called nothing yet. It then calls `register`.
abbrev idle : Run false
idle =
    run (initial false) (registering "mem" (record { applies_pool_config = true }) ∷ starting ∷ [])

abbrev frozen_dir : Directory
frozen_dir = record idle.last.dir { registry = freeze idle.last.registry; openings = 1 }

drivers_fixed_example :
    (frozen_dir.registry.builders ≡ idle.last.registry.builders)
    × ((driver : String) (b : Builder) (g : DriverRegistry)
        → register driver b frozen_dir.registry ≢ registered g)
unfolding run move register_begin freeze
drivers_fixed_example =
    drivers_fixed idle.last 0 "a" cfg no_call frozen_dir refl refl (step stop starts)

active_goroutine_moves_example : IsEnabled releasing_slot.last.dir (releasing 0 (returns none))
unfolding run
active_goroutine_moves_example =
    active_goroutine_moves releasing_slot.reach 1 (releasing 0 (returns none)) refl tt

locks_free_up_example :
    (i : ℕ) × (p : Pc) × (get_elem? reserving_lock.last.threads i ≡ some p)
    × (0 < holds_mu p + holds_observer_mu p)
    × IsEnabled reserving_lock.last.dir p
unfolding run
locks_free_up_example = locks_free_up reserving_lock.reach (inl refl)

drain_waits_for_its_entry_example :
    IsEnabled removing.last.dir (draining 0) ↔ (total (in_flight 0) removing.last.threads ≡ 0)
drain_waits_for_its_entry_example = drain_waits_for_its_entry removing.reach 0
