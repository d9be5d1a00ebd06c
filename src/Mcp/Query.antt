-- ===== src/Mcp/Query.antt =====
-- The `db_query` tool of mcpserver/sql.go, from the limits of the request to the encoded result.
pub mod Limits
use Prim.Native.String.{len}
use dbstore.Common.{
  ℕ, zero, suc, ◌+◌, ◌*◌, ◌^◌, ◌≤◌, ◌<◌, ltb, ◌==◌, ◌≡◌, refl, ℤ, pos, negsuc, positive_or, Bool,
  true, false, String, Option, none, some, List, [], ◌∷◌, ◌++◌, map, length, take, if◌then◌else◌,
  arith, append_assoc, append-nil, length-append, Option-cases, inl, inr,
}
use dbstore.Store.Errors.{Error}
use dbstore.Mcp.Errors.{
  ToolError, Result, ok, err, ◌>>=◌, ◌>>◌, check, max_rows_exceeded, max_bytes_exceeded,
  timeout_out_of_range, result_too_large, encode_failed, store_error,
}
use dbstore.Mcp.Server.{Server}
use dbstore.Mcp.ReadOnly.{validate_read_only_query}

-- A value as it comes from JSON or as the driver delivers it.
pub data SqlValue : Type 0 where
  bytes text : List ℕ → SqlValue
  scalar : ℕ → SqlValue

unfoldable pub normalize_sql_value : SqlValue → SqlValue
normalize_sql_value (bytes b) = text b
normalize_sql_value v = v

abbrev pub Row : Type 0
Row = List SqlValue

abbrev pub normalize : Row → Row
normalize = map normalize_sql_value

pub record QueryInput : Type 0 where
  pub source : String
  pub query : List ℕ
  pub args : List SqlValue
  pub max_rows : ℤ
  pub max_bytes : ℤ
  pub timeout_ms : ℤ

-- The request with its limits settled; the timeout is in nanoseconds.
pub record Plan : Type 0 where
  pub source : String
  pub query : List ℕ
  pub args : List SqlValue
  pub max_rows : ℕ
  pub max_bytes : ℕ
  pub timeout : ℕ

-- `timeoutMs`: 0 stands for five seconds.
unfoldable pub timeout_of : ℤ → Result ℕ
timeout_of (pos zero) = ok (5 * 10 ^ 9)
timeout_of (pos (suc n)) =
    if ltb 30000 (suc n) then err timeout_out_of_range else ok (suc n * 10 ^ 6)
timeout_of (negsuc n) = err timeout_out_of_range

within : ℕ → ℕ → ToolError → Result ℕ
within value maximum e = if ltb maximum value then err e else ok value

-- The handler after the policy's consent, up to the run.
unfoldable pub plan : Server → QueryInput → Result Plan
unfolding within
plan s input = do
  query ← validate_read_only_query input.query
  max_rows ←
      within (positive_or input.max_rows s.default_max_rows) s.maximum_max_rows
        (max_rows_exceeded s.maximum_max_rows)
  max_bytes ←
      within (positive_or input.max_bytes s.default_max_bytes) s.maximum_max_bytes
        (max_bytes_exceeded s.maximum_max_bytes)
  timeout ← timeout_of input.timeout_ms
  ok (record {
    source = input.source;
    query = query;
    args = input.args;
    max_rows = max_rows;
    max_bytes = max_bytes;
    timeout = timeout;
  })

-- What `rows` delivers: for each `Next` a scanned row or the error of its `Scan`; and `rows.Err()` at
-- the end, or after the loop was left early.
pub record Cursor : Type 0 where
  pub columns : Result (List String)
  pub scans : List (Result Row)
  pub end_err : Option ToolError
  pub break_err : Option ToolError

-- What package json makes of a value: the number of bytes, or an error.
pub record Encoder : Type 0 where
  pub columns_len : List String → Result ℕ
  pub row_len : Row → Result ℕ
  pub output_len : List String → List Row → Bool → Result ℕ

pub record QueryOutput : Type 0 where
  pub columns : List String
  pub rows : List Row
  pub row_count : ℕ
  pub truncated : Bool

unfoldable pub rows_err : Option ToolError → List Row × Bool → Result (List Row × Bool)
rows_err none r = ok r
rows_err (some e) r = err e

module _ (json : Encoder) (p : Plan) (cursor : Cursor) where
  -- A row that fits: it is normalised, and its encoded length is added up.
  append_row : List Row → ℕ → Row → Result (List Row × ℕ)
  append_row rows size row = do
    n ← json.row_len (normalize row)
    if ltb p.max_bytes (size + n + 1)
        then err (result_too_large p.max_bytes)
        else ok (rows ++ normalize row ∷ [], size + n + 1)

  -- The loop over the rows, with those so far and their size: the rows, and whether some were left.
  unfoldable pub collect : List Row → ℕ → List (Result Row) → Result (List Row × Bool)
  unfolding append_row rows_err
  collect rows size [] = rows_err cursor.end_err (rows, false)
  collect rows size (err e ∷ rest) = err e
  collect rows size (ok row ∷ rest) =
      if length rows == p.max_rows
      then rows_err cursor.break_err (rows, true)
      else append_row rows size row >>= λ r. collect r.0 r.1 rest

  -- The rest of the callback of `Run`, once the query has been sent.
  unfoldable pub answer : Result QueryOutput
  answer = do
    columns ← cursor.columns
    n ← json.columns_len columns
    if ltb p.max_bytes (len p.source + n + 128) then err (result_too_large p.max_bytes) else do
      r ← collect [] (len p.source + n + 128) cursor.scans
      m ← json.output_len columns r.0 r.1
      if ltb p.max_bytes m
          then err (result_too_large p.max_bytes)
          else ok
              (record { columns = columns; rows = r.0; row_count = length r.0; truncated = r.1 })

-- What `Next`, `Scan` and `Err` of a query with rows of another type deliver.
pub record Rows (A : Type 0) : Type 0 where
  pub scans : List (Result A)
  pub end_err : Option ToolError

pub record TableInfo : Type 0 where
  pub schema : String
  pub name : String
  pub type : String

-- `PRAGMA table_info`'s name, type, notnull and pk.
pub record PragmaRow : Type 0 where
  pub name : String
  pub type : String
  pub not_null : ℤ
  pub primary_key : ℤ

-- `information_schema.columns`' column_name, data_type and is_nullable.
pub record SchemaRow : Type 0 where
  pub name : String
  pub type : String
  pub nullable : String

-- `db.Stats()`, as far as it is reported.
pub record Stats : Type 0 where
  pub open_connections : ℤ
  pub in_use : ℤ
  pub idle : ℤ

-- The catalog queries of the three dialects.
pub data Dialect : Type 0 where
  sqlite postgres mysql : Dialect

-- What the callbacks need of an `*sqlx.DB`: its driver's name, a ping, its statistics, whether a
-- read-only transaction begins, a query in that transaction, and the catalog queries.
pub record Database : Type 0 where
  pub driver_name : String
  pub ping : Option ToolError
  pub stats : Stats
  pub begin_tx : Option ToolError
  pub query : List ℕ → List SqlValue → Result Cursor
  pub tables : Dialect → Result (Rows TableInfo)
  pub table_info : String → Result (Rows PragmaRow)
  pub schema_columns : Dialect → String → Result (Rows SchemaRow)

-- The callback that `query` hands to `Executor.Run`.
unfoldable pub run_query : Encoder → Plan → Database → Result QueryOutput
run_query json p db = do check db.begin_tx; cursor ← db.query p.query p.args; answer json p cursor
