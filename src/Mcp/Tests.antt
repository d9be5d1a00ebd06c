-- ===== src/Mcp/Tests.antt =====
-- mcpserver on concrete inputs.
use dbstore.Common.{
  String, str_eq, if◌then◌else◌, ◌+◌, ◌*◌, ◌^◌, ◌≤◌, ◌<◌, ◌≡◌, refl, ◌↔◌, ◌⊎◌, true, false, none,
  some, [], ◌∷◌, ◌++◌, length, pos,
}
use dbstore.Store.Config.{default_pool_config}
use dbstore.Mcp.Operation.{query, register_source, remove_source}
use dbstore.Mcp.Errors.{ok, err, select_into, disabled_by_capability}
use dbstore.Mcp.Policy.{
  capability_policy, kind, inspects, queries, manages, capability_policy_exact,
}
use dbstore.Mcp.ReadOnly.{
  codes, is_space, trim_space, trim_semicolon, contains, first_field, equal_fold, has_into,
  validate_read_only_query,
}
use dbstore.Mcp.ReadOnly.Accepted.{IsReadOnly, validate-IsReadOnly, IsReadOnly-validate}
use dbstore.Mcp.Command.{
  Environment, Flags, resolve_source, initial_source, start, serves, command_tools, start-serves,
}
use dbstore.Mcp.Server.{
  Options, Server, created, new, with_limits, add_tools, reading_tools, implementation_version,
  HasLimits, new-HasLimits,
}
use dbstore.Mcp.Query.{
  QueryInput, Plan, plan, timeout_of, bytes, text, normalize_sql_value, Cursor, Encoder, Database,
  QueryOutput, collect, rows_err, answer, run_query,
}
use dbstore.Mcp.Query.Limits.{Answers, run_query-Answers, plan-within}
use dbstore.Mcp.Tools.{Store, answered, call_remove_source, handle, handle_query}
use dbstore.Mcp.Tools.Authorised.{
  RunsCallback, Answered, IsRefused, denied_changes_nothing, query_answers_within_limits,
}

accepts_one : validate_read_only_query (codes "  sElect 1 from t;  ") ≡ ok (codes "sElect 1 from t")
unfolding validate_read_only_query trim_space trim_semicolon is_space contains first_field
    equal_fold has_into
accepts_one = refl

refuses_into : validate_read_only_query (codes "select 1 Into t") ≡ err select_into
unfolding validate_read_only_query trim_space trim_semicolon is_space contains first_field
    equal_fold has_into
refuses_into = refl

validate-IsReadOnly_example : IsReadOnly (codes "sElect 1 from t")
validate-IsReadOnly_example =
    validate-IsReadOnly (codes "  sElect 1 from t;  ") (codes "sElect 1 from t") accepts_one

select_one : IsReadOnly (codes "sElect 1 from t")
select_one =
    validate-IsReadOnly (codes "  sElect 1 from t;  ") (codes "sElect 1 from t") accepts_one

IsReadOnly-validate_example :
    validate_read_only_query (codes "sElect 1 from t") ≡ ok (codes "sElect 1 from t")
IsReadOnly-validate_example = IsReadOnly-validate (codes "sElect 1 from t") select_one

capability_policy_exact_example : (capability_policy true false remove_source "a" ≡ none) ↔ (
    (kind remove_source ≡ inspects)
    ⊎ (kind remove_source ≡ queries) × (true ≡ true)
    ⊎ (kind remove_source ≡ manages) × (false ≡ true))
capability_policy_exact_example = capability_policy_exact true false remove_source "a"

-- A server for queries, with at most two rows.
abbrev options : Options
options = record {
  store = some true;
  enable_management = true;
  policy = some (capability_policy true false);
  source_resolver = none;
  name = "";
  version = "v1";
  default_max_rows = pos 1;
  maximum_max_rows = pos 2;
  default_max_bytes = pos 0;
  maximum_max_bytes = pos 0;
}

abbrev server : Server
server = record {
  managed = true;
  policy = capability_policy true false;
  source_resolver = none;
  name = "dbstore-mcp";
  version = "v1";
  default_max_rows = 1;
  maximum_max_rows = 2;
  default_max_bytes = 262144;
  maximum_max_bytes = 4194304;
}

new-server : new none options ≡ created server
unfolding new with_limits implementation_version
new-server = refl

new-HasLimits_example :
    HasLimits server × (add_tools server ≡ reading_tools ++ ("db_remove_source" ∷ [] ++ []))
new-HasLimits_example = new-HasLimits none options server new-server

abbrev one_row : Cursor
one_row = record {
  columns = ok ("x" ∷ []);
  scans = ok (bytes (b'a' ∷ []) ∷ []) ∷ ok (bytes (b'b' ∷ []) ∷ []) ∷ [];
  end_err = none;
  break_err = none;
}

abbrev database : Database
database = record {
  driver_name = "sqlite";
  ping = none;
  stats = record { open_connections = pos 1; in_use = pos 1; idle = pos 0 };
  begin_tx = none;
  query = λ q args. ok one_row;
  tables = λ dialect. ok (record { scans = []; end_err = none });
  table_info = λ table. ok (record { scans = []; end_err = none });
  schema_columns = λ dialect table. ok (record { scans = []; end_err = none });
}

-- Every value takes ten bytes.
abbrev encoder : Encoder
encoder = record {
  columns_len = λ cs. ok (10 * length cs);
  row_len = λ row. ok (10 * length row);
  output_len = λ cs rows cut. ok (100 + 10 * length rows);
}

-- A store without state whose runs call back on the one database.
abbrev store : Store (Unit {0})
store = record {
  sources = λ st. [];
  run = λ source f st. (st, f database);
  remove = λ source st. (st, none);
  open_source = λ source cfg st. (st, none);
}

store-RunsCallback : RunsCallback store
store-RunsCallback A source f st a h = (database, h)

abbrev input : QueryInput
input = record {
  source = "a";
  query = codes "select x from t;";
  args = [];
  max_rows = pos 0;
  max_bytes = pos 0;
  timeout_ms = pos 0;
}

abbrev planned : Plan
planned = record {
  source = "a";
  query = codes "select x from t";
  args = [];
  max_rows = 1;
  max_bytes = 262144;
  timeout = 5000000000;
}

abbrev output : QueryOutput
output = record {
  columns = "x" ∷ [];
  rows = (text (b'a' ∷ []) ∷ []) ∷ [];
  row_count = 1;
  truncated = true;
}

plans : plan server input ≡ ok planned
unfolding plan timeout_of validate_read_only_query trim_space trim_semicolon is_space contains
    first_field equal_fold has_into
plans = refl

plan-within_example :
    IsReadOnly planned.query
    × (planned.source ≡ "a")
    × (planned.max_rows ≤ 2)
    × (planned.max_bytes ≤ 4194304)
    × (0 < planned.timeout)
    × (planned.timeout ≤ 30 * 10 ^ 9)
plan-within_example = plan-within server input planned plans

answers : run_query encoder planned database ≡ ok output
unfolding run_query answer collect rows_err normalize_sql_value
answers = refl

run_query-Answers_example : Answers encoder planned database output
run_query-Answers_example = run_query-Answers encoder planned database output answers

handles : (handle_query store encoder server input tt).1 ≡ ok (answered output)
unfolding handle_query capability_policy plan timeout_of validate_read_only_query trim_space
    trim_semicolon is_space contains first_field equal_fold has_into run_query answer collect
    rows_err normalize_sql_value
handles = refl

query_answers_within_limits_example : Answered encoder server input output
query_answers_within_limits_example =
    query_answers_within_limits store encoder server store-RunsCallback input tt output handles

denied : server.policy remove_source "a" ≡ some (disabled_by_capability remove_source)
unfolding capability_policy
denied = refl

denied_changes_nothing_example :
    IsRefused tt (handle store encoder server (call_remove_source "a") tt)
denied_changes_nothing_example =
    denied_changes_nothing store encoder server (call_remove_source "a") tt
      (disabled_by_capability remove_source) denied

abbrev environment : Environment
environment = record {
  lookup_env = λ name. if str_eq name "DBSTORE_MCP_SOURCE_MAIN" then some "main" else none;
  decode =
      λ text. some (record { driver = "sqlite"; dsn = text; pool_config = default_pool_config });
  upper = λ text. "MAIN";
}

abbrev manage : Flags
manage = record {
  source = "primary";
  driver = "sqlite";
  max_concurrency = pos 5;
  allow_query = false;
  allow_manage = true;
}

resolves_main :
    resolve_source environment "main"
    ≡ some (record { driver = "sqlite"; dsn = "main"; pool_config = default_pool_config })
unfolding resolve_source
resolves_main = refl

refuses_path : resolve_source environment "../main" ≡ none
unfolding resolve_source
refuses_path = refl

start-serves_example :
    (s : Server) × (start none environment manage (λ source. true) ≡ serves s)
    × (add_tools s ≡ command_tools true)
    × ((source : String) → (s.policy query source ≡ none) ↔ (false ≡ true))
    × ((source : String) → (s.policy register_source source ≡ none) ↔ (true ≡ true))
    × ((source : String) → (s.policy remove_source source ≡ none) ↔ (true ≡ true))
unfolding initial_source
start-serves_example = start-serves none environment manage (λ source. true) refl
