-- ===== src/Lib.antt =====
-- dbstore: a registry of named database sources, and an MCP server in front of it.
--
-- The program's parts, and where they are modelled.
--
-- * internal/store is the runtime. A `Directory` maps names to entries, each a client with its throttle
--   and its count of operations in flight; an `Executor` admits operations to an entry, a `Source` to the
--   one entry that it captured; a `DriverRegistry` opens clients; an `Adapter` puts them together.
--   - Store/Config, Store/Errors: config.go, and the errors of the package.
--   - Store/Throttle: throttle.go, the channel as its capacity and its tokens.
--   - Store/Driver: driver.go.
--   - Store/Directory: directory.go and directory_entry.go. What a method does in one hold of `mu` is one
--     function: `register_begin` and `register_commit` of `register`, `remove_entry_begin` of
--     `removeEntry`, `remove_all_begin` of `RemoveAll`, `acquire`, `acquire_source`, `release`,
--     `source_entry`.
--   - Store/Protocol, Store/Goroutine: the methods of directory.go, executor.go and source.go as programs
--     of goroutines. `Pc` is where a goroutine stands, `move` is one step of one goroutine: one hold of
--     `mu`, one operation on a lock, a channel or a wait group, one call of the observer, of a driver,
--     of `Close` or of `fn`. `mu` is held from one step to the next only between a change of the map and
--     `observerMu.Lock()`; elsewhere a hold is one step, which waits while `mu` is taken.
--     Store/Goroutine/System has the steps of all goroutines and the states that they reach, in any
--     number and any interleaving. Its other children are one invariant each, put together in
--     Store/Goroutine/Invariant, from which Safety, Stale and Progress draw.
--   - Store/Runner: `Exec` and `Call` of runner.go.
--   - Store/Observer: `safeObserve` and `MultiObserver` of observer.go.
--   - Store/Options: the options of `NewAdapter` in adapter.go.
--   - Store/Listing: `Sources` of directory.go.
--   - Store/Adapter: `Configure` of adapter.go with its rollback, when no other goroutine is at work.
-- * mcpserver offers the sources as tools.
--   - Mcp/Operation, Mcp/Policy: policy.go.
--   - Mcp/Server: server.go, and `addTools` of tools.go.
--   - Mcp/ReadOnly: `validateReadOnlyQuery` of sql.go with what it uses of package strings.
--   - Mcp/Query: the rest of the `query` tool, as `plan` (before the run) and `run_query` (in it).
--   - Mcp/Command: cmd/dbstore-mcp/main.go, up to the call that serves.
--   - Mcp/Tools: the handlers of tools.go and sql.go, over a `Store` with a state of any type.
-- * adapters stand on internal/store.
--   - Adapters/Prometheus: adapters/prometheus/observer.go, fed with the callbacks of Store/Goroutine.
--   - Adapters/Sqlx: `runTx` of adapters/sqlx/source.go, which `WithTx` of handle.go repeats, and the
--     not-found error of `Get`.
--   - Adapters/Sqlx/Handle, Adapters/Sqlx/Driver: the rest of handle.go, and driver.go.
--   - Adapters/Rest, Adapters/Elasticsearch, Adapters/Opensearch: the drivers and handles of these
--     adapters, and the client of adapters/rest. Adapters/Reply is what the packages that they call
--     answer.
-- * cmd/dbstore-gen generates repositories for a domain interface.
--   - Gen/Config: config.go. Gen/Spec: `parseBackendSpec` of main.go. Gen/Paths: package path/filepath.
--   - Gen/Alias, Gen/Parser: parser.go. A type is the text that go/types makes of it, in pieces, with
--     the packages that it names; Gen/Parser/Kept is what its maps of aliases keep true.
--   - Gen/Names, Gen/View, Gen/Resolve: generator.go without the rendering. Gen/View/Imports is about
--     the import lines.
--   - Gen/Implementation: implementation.go, over the entries of a directory.
--   - Gen/Files: the writes of main.go on files as a map from paths to texts. Gen/Plan: `run` of main.go
--     up to its first write. Gen/Run: `run`.
--   - Gen/Template, Gen/Render: template.go and the rendering of generator.go.
-- * Common has the numbers, lists, maps and sums that the others share. The Tests modules run the model
--   on concrete inputs.
--
-- How the code is represented.
--
-- * A client is the number of the successful `Open` that returned it, and an entry, which is made for one
--   client, has the number of its client; `heap` finds the entry. Go's maps are association lists. The
--   order in which Go goes through a map is any order: `Configure` takes its sources as a list.
-- * What the environment decides is a `Choice`: what a driver, `Close` or `fn` returns, the clock, and
--   whether the context is done. Panics of `fn` are an outcome. An observer's callbacks are recorded;
--   its panics, which `safeObserve` swallows, change nothing.
-- * The fields `next_client`, `tuned`, `closed_clients`, `history`, `delivered` and `run_events` record
--   what has happened, for the statements; no step looks at them but to number the next client.
-- * Queries are code points of valid UTF-8, durations are nanoseconds. Package json is a parameter,
--   `Encoder`, by the lengths that it returns, and so is a database, by its rows; sizes do not overflow.
-- * What yaml, package flag, go/parser, go/packages, go/format and the operating system report is an
--   argument of the functions that use it. A write that fails may leave any text in its file.
--   What the generator reads of the package, which may hold files that an earlier run wrote, depends on
--   the files as they are before the run writes.
-- * All loops are over lists, but for the search for an import alias, which has one round more than there
--   are aliases in use: each round that fails has found another of them in use.
--
-- Not modelled: durations, the methods of the adapters that only pass on to internal/store, the
-- registration of the metrics, what the generator prints, and the signals and logs of the commands.
pub mod Common
pub mod Store
pub mod Mcp
pub mod Adapters
pub mod Gen
