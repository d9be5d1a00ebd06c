-- ===== src/Store/Adapter.antt =====
-- internal/store/adapter.go, and the methods of directory.go that it calls, when no other goroutine
-- uses the directory: each method runs from its first hold of `mu` to its return. What drivers
-- return is an argument: the error of `Open` for a configuration, if it fails.
pub mod Stack
pub mod Effects
pub mod Rollback
mod Tests
use dbstore.Common.{
  ℕ, zero, suc, ◌+◌, ◌-◌, ltb, Bool, true, false, String, str_eq, Option, none, some, List, [], ◌∷◌,
  ◌++◌, ids, lookup, if◌then◌else◌, map,
}
use dbstore.Store.Errors.{
  Error, Result, ok, err, name_required, opening, configure_name_required, configuring,
}
use dbstore.Store.Config.{SourceConfig, Config}
use dbstore.Store.Driver.{Builder, Opened, open_with}
use dbstore.Store.Directory.{
  Entry, Directory, source_registered, source_removed, register_begin, register_commit,
  remove_entry_begin, remove_all_begin, note_opened, close_client, deliver, names,
}

-- The driver's answer: the next client, or an error.
abbrev answer : Option Error → ℕ → Result ℕ
answer none c = ok c
answer (some e) c = err e

-- The deferred `openings.Done()`.
done_opening : Directory → Directory
done_opening d = record d { openings = d.openings - 1 }

publish : String → SourceConfig → ℕ → ℕ → Directory → Result ℕ × Directory
unfolding done_opening
publish name cfg c now d = elim (register_commit name cfg c now d) [
  | err e ↦ (err e, done_opening (close_client c d))
  | ok d' ↦ (ok c, done_opening (deliver (source_registered name) d'))
]

connect : String → SourceConfig → Option Error → ℕ → Directory → Result ℕ × Directory
unfolding done_opening publish
connect name cfg failure now d =
    elim (open_with cfg (λ _. answer failure d.next_client) d.registry) [
      | err e ↦ (err (opening name e), done_opening d)
      | ok o ↦ publish name cfg o.client now (note_opened o d)
    ]

-- `Directory.register`
unfoldable pub register :
    String → SourceConfig → Option Error → ℕ → Directory → Result ℕ × Directory
unfolding connect
register name cfg failure now d =
    if str_eq name "" then (err name_required, d) else elim (register_begin name d) [
      | err e ↦ (err e, d)
      | ok d' ↦ connect name cfg failure now d'
    ]

unfoldable pub in_flight : ℕ → Directory → ℕ
in_flight e d = elim (d.heap e) [ none ↦ 0 | some x ↦ x.wg ]

-- `Directory.removeEntry`, with what `Close` returns; `none` waits for ever, on operations in flight.
unfoldable pub remove_entry :
    String → Option ℕ → Option Error → Directory → Option (Option Error × Directory)
unfolding in_flight
remove_entry name expected closing d = elim (remove_entry_begin name expected d) [
  | err e ↦ some (some e, d)
  | ok none ↦ some (none, d)
  | ok (some (e, d')) ↦
      if ltb 0 (in_flight e d')
      then none
      else some (closing, close_client e (deliver (source_removed name) d'))
]

-- The rollback of `Configure`, which drops what each `removeEntry` returns.
unfoldable pub rollback : List (String × ℕ) → Directory → Option Directory
rollback [] d = some d
rollback ((name, e) ∷ rest) d = elim (remove_entry name (some e) none d) [
  | none ↦ none
  | some (_, d') ↦ rollback rest d'
]

with_error : Error → Option Directory → Option (Option Error × Directory)
with_error e none = none
with_error e (some d) = some (some e, d)

module _ (failure : SourceConfig → Option Error) (now : ℕ) where
  -- The loop of `Configure` over the sources, with the sources that it has opened so far.
  unfoldable pub configure_sources :
      List (String × ℕ)
      → List (String × SourceConfig)
      → Directory
      → Option (Option Error × Directory)
  unfolding with_error
  configure_sources opened [] d = some (none, d)
  configure_sources opened ((name, cfg) ∷ rest) d =
      let (r, d') = register name cfg (failure cfg) now d in
      elim r [
        | err e ↦ with_error (configuring name e) (rollback opened d')
        | ok c ↦ configure_sources (opened ++ (name, c) ∷ []) rest d'
      ]

  -- `Adapter.Configure`
  unfoldable pub configure : Config → Directory → Option (Option Error × Directory)
  configure cfg d = elim (lookup "" cfg.sources) [
    | some _ ↦ some (some configure_name_required, d)
    | none ↦ configure_sources [] cfg.sources d
  ]
