-- ===== src/Mcp/Tools.antt =====
-- The handlers of mcpserver/tools.go and sql.go, over what they use of the store and of the manager.
pub mod Authorised
use dbstore.Common.{
  ℕ, ltb, ◌==◌, ℤ, pos, negsuc, Bool, true, false, not, ◌||◌, String, str_eq, Option, none, some,
  List, [], ◌∷◌, ◌++◌, if◌then◌else◌,
}
use dbstore.Store.Config.{SourceConfig, SourceInfo}
use dbstore.Mcp.Operation.{
  Operation, list_sources, ping, list_tables, describe_table, query, register_source, remove_source,
}
use dbstore.Mcp.Errors.{
  ToolError, Result, ok, err, ◌>>=◌, ◌>>◌, check, source_required, table_required,
  config_ref_required, unsupported_driver, table_not_found, unresolved_config, registration_failed,
  no_such_tool,
}
use dbstore.Mcp.Server.{Server, Resolver}
use dbstore.Mcp.Query.{
  QueryInput, QueryOutput, Plan, plan, Encoder, Database, Rows, TableInfo, PragmaRow, SchemaRow,
  Stats, Dialect, sqlite, postgres, mysql, run_query,
}

-- `SQLStore` and `SourceManager`, on a state: `run` is `Executor().Run` with a callback on the client.
pub record Store (S : Type 0) : Type 1 where
  pub sources : S → List SourceInfo
  pub run : {A : Type 0} → String → (Database → Result A) → S → S × Result A
  pub remove : String → S → S × Option ToolError
  pub open_source : String → SourceConfig → S → S × Option ToolError

pub record ColumnInfo : Type 0 where
  pub name : String
  pub type : String
  pub nullable : Bool
  pub primary_key : Bool

-- A call of a tool, with its input.
pub data Call : Type 0 where
  call_list_sources : Call
  call_ping call_list_tables : String → Call
  call_describe_table : String → String → Call
  call_query : QueryInput → Call
  call_register_source : String → String → Call
  call_remove_source : String → Call

pub data Output : Type 0 where
  sources_are : List SourceInfo → Output
  pinged : String → String → Stats → Output
  tables_are : String → List TableInfo → Output
  columns_are : String → String → List ColumnInfo → Output
  answered : QueryOutput → Output
  changed : String → Output

abbrev pub require_source : String → Option ToolError
require_source source = if str_eq source "" then some source_required else none

-- The loop over rows of a catalog query.
unfoldable pub scan_all :
    {A B : Type 0} → (A → B) → Option ToolError → List (Result A) → Result (List B)
scan_all f end [] = check end >> ok []
scan_all f end (err e ∷ rest) = err e
scan_all f end (ok a ∷ rest) = scan_all f end rest >>= λ bs. ok (f a ∷ bs)

unfoldable pub dialect_of : String → Result Dialect
dialect_of driver =
    if str_eq driver "sqlite" || str_eq driver "sqlite3"
    then ok sqlite
    else if str_eq driver "postgres" || str_eq driver "pgx"
    then ok postgres
    else if str_eq driver "mysql"
    then ok mysql
    else err (unsupported_driver driver)

abbrev is_positive : ℤ → Bool
is_positive (pos n) = ltb 0 n
is_positive (negsuc n) = false

abbrev is_zero : ℤ → Bool
is_zero (pos n) = n == 0
is_zero (negsuc n) = false

unfoldable pub pragma_column : PragmaRow → ColumnInfo
pragma_column r = record {
  name = r.name;
  type = r.type;
  nullable = is_zero r.not_null;
  primary_key = is_positive r.primary_key;
}

unfoldable pub schema_column : SchemaRow → ColumnInfo
schema_column r = record {
  name = r.name;
  type = r.type;
  nullable = str_eq r.nullable "YES";
  primary_key = false;
}

unfoldable pub tables_in : Database → Result (List TableInfo)
tables_in db = do
  dialect ← dialect_of db.driver_name
  rows ← db.tables dialect
  scan_all (λ t. t) rows.end_err rows.scans

describe_in : String → Database → Dialect → Result (List ColumnInfo)
describe_in table db sqlite = do
  rows ← db.table_info table
  scan_all pragma_column rows.end_err rows.scans
describe_in table db dialect = do
  rows ← db.schema_columns dialect table
  scan_all schema_column rows.end_err rows.scans

unfoldable pub columns_in : String → Database → Result (List ColumnInfo)
unfolding describe_in
columns_in table db = dialect_of db.driver_name >>= describe_in table db

abbrev some_columns : String → String → List ColumnInfo → Result Output
some_columns source table [] = err (table_not_found table)
some_columns source table (c ∷ cs) = ok (columns_are source table (c ∷ cs))

module _ {S : Type 0} where
  abbrev pub with_result : {A B : Type 0} → (A → Result B) → S × Result A → S × Result B
  with_result f (st, r) = (st, r >>= f)

  -- The manager's error, as the tool reports it.
  abbrev pub with_error :
      Output → (ToolError → ToolError) → S × Option ToolError → S × Result Output
  with_error out f (st, none) = (st, ok out)
  with_error out f (st, some e) = (st, err (f e))

  -- A guard of a handler: on an error nothing has been done.
  abbrev pub guard : Option ToolError → S → S × Result Output → S × Result Output
  guard none st k = k
  guard (some e) st k = (st, err e)

  abbrev pub prepared : {A : Type 0} → Result A → S → (A → S × Result Output) → S × Result Output
  prepared (ok a) st k = k a
  prepared (err e) st k = (st, err e)

  abbrev resolved : Option SourceConfig → S → (SourceConfig → S × Result Output) → S × Result Output
  resolved none st k = (st, err unresolved_config)
  resolved (some cfg) st k = k cfg

module _ {S : Type 0} (store : Store S) (json : Encoder) (s : Server) where
  unfoldable pub handle_ping : String → S → S × Result Output
  handle_ping source st = guard (require_source source) st (
      guard (s.policy ping source) st (
        with_result (λ (r : String × Stats). ok (pinged source r.0 r.1))
          (store.run source (λ db. check db.ping >> ok (db.driver_name, db.stats)) st)))

  unfoldable pub handle_list_tables : String → S → S × Result Output
  handle_list_tables source st = guard (require_source source) st (
      guard (s.policy list_tables source) st
        (with_result (λ tables. ok (tables_are source tables)) (store.run source tables_in st)))

  unfoldable pub handle_describe_table : String → String → S → S × Result Output
  handle_describe_table source table st = guard (require_source source) st (
      guard (if str_eq table "" then some table_required else none) st (
        guard (s.policy describe_table source) st
          (with_result (some_columns source table) (store.run source (columns_in table) st))))

  unfoldable pub handle_query : QueryInput → S → S × Result Output
  handle_query input st = guard (require_source input.source) st (
      guard (s.policy query input.source) st (
        prepared (plan s input) st λ p.
          with_result (λ out. ok (answered out)) (store.run input.source (run_query json p) st)))

  unfoldable pub handle_remove_source : String → S → S × Result Output
  handle_remove_source source st = guard (require_source source) st (
      guard (s.policy remove_source source) st
        (with_error (changed source) (λ e. e) (store.remove source st)))

  -- Only a server with a resolver has this tool.
  unfoldable pub handle_register_source : Resolver → String → String → S → S × Result Output
  handle_register_source resolve name config_ref st = guard (require_source name) st (
      guard (if str_eq config_ref "" then some config_ref_required else none) st (
        guard (s.policy register_source name) st (
          resolved (resolve config_ref) st λ cfg.
            with_error (changed name) (λ e. registration_failed) (store.open_source name cfg st))))

  unfoldable pub handle_list_sources : S → S × Result Output
  handle_list_sources st =
      guard (s.policy list_sources "") st (st, ok (sources_are (store.sources st)))

  unfoldable pub registering : Option Resolver → String → String → S → S × Result Output
  registering none name config_ref st = (st, err no_such_tool)
  registering (some resolve) name config_ref st = handle_register_source resolve name config_ref st

  -- A call of a tool, which is refused if `addTools` does not offer it.
  unfoldable pub handle : Call → S → S × Result Output
  unfolding registering
  handle call_list_sources st = handle_list_sources st
  handle (call_ping source) st = handle_ping source st
  handle (call_list_tables source) st = handle_list_tables source st
  handle (call_describe_table source table) st = handle_describe_table source table st
  handle (call_query input) st = handle_query input st
  handle (call_remove_source source) st =
      if s.managed then handle_remove_source source st else (st, err no_such_tool)
  handle (call_register_source name config_ref) st =
      if s.managed then registering s.source_resolver name config_ref st else (st, err no_such_tool)
