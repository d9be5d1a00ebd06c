-- ===== src/Store/Directory.antt =====
-- internal/store/directory.go and directory_entry.go: the state of a `Directory`, and what its
-- methods do to it in one hold of `mu`, as functions. Store/Goroutine composes these into methods.
--
-- A client is known by the number of the `Open` that returned it, and an entry, which is made for
-- one client, by the number of its client.
use mathlib.Core.Option
use dbstore.Common.{
  ℕ, suc, ◌+◌, ◌-◌, ltb, ℤ, Bool, true, false, String, ◌==◌, Option, none, some, List, [], ◌∷◌,
  ◌++◌, map, lookup, delete, if◌then◌else◌,
}
use dbstore.Store.Errors.{
  Error, Result, ok, err, directory_closed, already_registered, not_registered,
  no_longer_registered,
}
use dbstore.Store.Config.{SourceConfig, PoolConfig}
use dbstore.Store.Throttle.{Throttle, new_throttle}
use dbstore.Store.Driver.{DriverRegistry, Opened, freeze}

pub record Entry : Type 0 where
  pub driver : String
  pub throttle : Throttle
  pub max_concurrency : ℤ
  pub created_at : ℕ
  pub wg : ℕ

-- Calls of an `Observer`.
pub data Lifecycle : Type 0 where
  source_registered source_removed : String → Lifecycle

pub data RunEvent : Type 0 where
  acquired completed : String → Option Error → RunEvent

pub record Directory : Type 0 where
  pub mu : Bool
  pub entries : List (String × ℕ)
  pub heap : ℕ → Option Entry
  pub registry : DriverRegistry
  pub observer : Bool
  pub closed : Bool
  pub openings : ℕ
  pub observer_mu : Bool
  -- What has happened so far: how many clients drivers have opened, which pool settings and which
  -- `Close` they got, the changes of `entries`, and the calls of the observer.
  pub next_client : ℕ
  pub tuned : List (ℕ × PoolConfig)
  pub closed_clients : List ℕ
  pub history : List Lifecycle
  pub delivered : List Lifecycle
  pub run_events : List RunEvent

unfoldable pub new_directory : DriverRegistry → Bool → Directory
new_directory registry observer = record {
  mu = false;
  entries = [];
  heap = λ _. none;
  registry = registry;
  observer = observer;
  closed = false;
  openings = 0;
  observer_mu = false;
  next_client = 0;
  tuned = [];
  closed_clients = [];
  history = [];
  delivered = [];
  run_events = [];
}

-- The first hold of `mu` in `register`.
unfoldable pub register_begin : String → Directory → Result Directory
unfolding freeze
register_begin name d = if d.closed then err directory_closed else elim (lookup name d.entries) [
  | some _ ↦ err (already_registered name)
  | none ↦ ok (record d { registry = freeze d.registry; openings = d.openings + 1 })
]

abbrev pub write : (ℕ → Option Entry) → ℕ → Option Entry → ℕ → Option Entry
write heap e x j = if e == j then x else heap j

abbrev new_entry : SourceConfig → ℕ → Entry
new_entry cfg now = record {
  driver = cfg.driver;
  throttle = new_throttle cfg.pool_config.max_concurrency;
  max_concurrency = cfg.pool_config.max_concurrency;
  created_at = now;
  wg = 0;
}

-- The second hold of `mu` in `register`, up to the reservation of the callback.
unfoldable pub register_commit : String → SourceConfig → ℕ → ℕ → Directory → Result Directory
register_commit name cfg c now d =
    if d.closed then err directory_closed else elim (lookup name d.entries) [
      | some _ ↦ err (already_registered name)
      | none ↦ ok (record d {
        entries = (name, c) ∷ d.entries;
        heap = write d.heap c (some (new_entry cfg now));
        history = d.history ++ source_registered name ∷ [];
      })
    ]

-- Does the name refer to the entry that a rollback expects? `none` expects nothing.
abbrev expects : Option ℕ → ℕ → Bool
expects none e = true
expects (some x) e = x == e

-- `removeEntry` up to the reservation: the entry that is taken out, or nothing and the reply.
unfoldable pub remove_entry_begin : String → Option ℕ → Directory → Result (Option (ℕ × Directory))
remove_entry_begin name expected d = elim (lookup name d.entries) [
  | none ↦ elim expected [ none ↦ err (not_registered name) | some _ ↦ ok none ]
  | some e ↦
      if expects expected e
      then ok (
          some (
            e,
            record d {
              entries = delete name d.entries;
              history = d.history ++ source_removed name ∷ [];
            },
          ))
      else ok none
]

abbrev pub names : List (String × ℕ) → List String
names = map (λ p. p.0)

-- `RemoveAll` up to the reservation.
unfoldable pub remove_all_begin : Directory → List (String × ℕ) × Directory
remove_all_begin d = (
  d.entries,
  record d {
    closed = true;
    entries = [];
    history = d.history ++ map source_removed (names d.entries);
  },
)

-- `entry.wg.Add(1)`, under `mu`. (An entry of the map is never nil: Store/Goroutine/InFlight.)
add_one : Entry → Entry
add_one x = record x { wg = x.wg + 1 }

add_wg : ℕ → Directory → Directory
add_wg e d = record d { heap = write d.heap e (Option.map add_one (d.heap e)) }

unfoldable pub acquire : String → Directory → Result (ℕ × Directory)
unfolding add_wg add_one
acquire name d = elim (lookup name d.entries) [
  | none ↦ err (not_registered name)
  | some e ↦ ok (e, add_wg e d)
]

-- Is the current entry the one that a `Source` captured? A nil capture never is.
abbrev captured : Option ℕ → ℕ → Bool
captured none e = false
captured (some x) e = x == e

unfoldable pub acquire_source : String → Option ℕ → Directory → Result (ℕ × Directory)
unfolding add_wg add_one
acquire_source name expected d = elim (lookup name d.entries) [
  | none ↦ err (no_longer_registered name)
  | some e ↦ if captured expected e then ok (e, add_wg e d) else err (no_longer_registered name)
]

-- `entry.wg.Done()`; `none` is its panic on a counter at zero, or a nil entry.
unfoldable pub release : ℕ → Directory → Option Directory
release e d = elim (d.heap e) [
  | none ↦ none
  | some x ↦
      if ltb 0 x.wg
      then some (record d { heap = write d.heap e (some (record x { wg = x.wg - 1 })) })
      else none
]

unfoldable pub source_entry : String → Directory → Option ℕ
source_entry name d = lookup name d.entries

-- What happens outside `mu`: a driver's `Open` returns a client, a client is closed, and the observer
-- is called.
unfoldable pub note_opened : Opened → Directory → Directory
note_opened o d = record d {
  next_client = suc d.next_client;
  tuned = elim o.tuned [ none ↦ d.tuned | some p ↦ d.tuned ++ (o.client, p) ∷ [] ];
}

unfoldable pub close_client : ℕ → Directory → Directory
close_client c d = record d { closed_clients = c ∷ d.closed_clients }

unfoldable pub deliver : Lifecycle → Directory → Directory
deliver l d = if d.observer then record d { delivered = d.delivered ++ l ∷ [] } else d
