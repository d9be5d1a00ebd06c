-- ===== src/Mcp/Tools/Authorised.antt =====
-- What a call of a tool does only with the policy's consent.
use dbstore.Common.{
  ◌≤◌, String, Option, none, some, Bool, true, false, ◌≡◌, refl, subst, sym, arith, if◌then◌else◌,
}
use dbstore.Mcp.Operation.{
  Operation, list_sources, ping, list_tables, describe_table, query, register_source, remove_source,
}
use dbstore.Mcp.Errors.{ToolError, Result, ok, err, no_such_tool}
use dbstore.Mcp.Server.{Server, Resolver}
use dbstore.Mcp.ReadOnly.Accepted.{IsReadOnly}
use dbstore.Mcp.Query.{QueryInput, QueryOutput, Plan, plan, Encoder, Database, run_query}
use dbstore.Mcp.Query.Limits.{plan-within, Answers, run_query-Answers, Result-bind}
use dbstore.Mcp.Tools.{
  Store, Call, call_list_sources, call_ping, call_list_tables, call_describe_table, call_query,
  call_register_source, call_remove_source, Output, handle, handle_ping, handle_list_tables,
  handle_describe_table, handle_query, answered, handle_remove_source, handle_register_source,
  handle_list_sources, guard, registering, require_source, prepared, with_result,
}

abbrev pub operation : Call → Operation
operation call_list_sources = list_sources
operation (call_ping source) = ping
operation (call_list_tables source) = list_tables
operation (call_describe_table source table) = describe_table
operation (call_query input) = query
operation (call_register_source name config_ref) = register_source
operation (call_remove_source source) = remove_source

abbrev pub target : Call → String
target call_list_sources = ""
target (call_ping source) = source
target (call_list_tables source) = source
target (call_describe_table source table) = source
target (call_query input) = input.source
target (call_register_source name config_ref) = name
target (call_remove_source source) = source

abbrev pub IsRefused : {S : Type 0} → S → S × Result Output → Type 0
IsRefused st r = (r.0 ≡ st) × ((e : ToolError) × (r.1 ≡ err e))

module _ {S : Type 0} (st : S) where
  guard-IsRefused :
      (g : Option ToolError) (k : S × Result Output) → IsRefused st k → IsRefused st (guard g st k)
  guard-IsRefused none k h = h
  guard-IsRefused (some e) k h = (refl, (e, refl))

  guard-denied :
      {g : Option ToolError} {e : ToolError} (k : S × Result Output)
      → g ≡ some e
      → IsRefused st (guard g st k)
  guard-denied {g} {e} k h = subst (λ x. IsRefused st (guard x st k)) (sym h) (refl, (e, refl))

  if-IsRefused :
      (b : Bool) (k : S × Result Output)
      → IsRefused st k
      → IsRefused st (if b then k else (st, err no_such_tool))
  if-IsRefused true k h = h
  if-IsRefused false k h = (refl, (no_such_tool, refl))

module _ {S : Type 0} (store : Store S) (json : Encoder) (s : Server) where
  -- A call that the policy denies is answered with an error, and the store is not touched.
  pub denied_changes_nothing :
      (c : Call) (st : S) (e : ToolError)
      → s.policy (operation c) (target c) ≡ some e
      → IsRefused st (handle store json s c st)
  unfolding handle registering handle_list_sources handle_ping handle_list_tables
      handle_describe_table handle_query handle_remove_source handle_register_source
  denied_changes_nothing call_list_sources st e h = guard-denied st _ h
  denied_changes_nothing (call_ping source) st e h = guard-IsRefused st _ _ (guard-denied st _ h)
  denied_changes_nothing (call_list_tables source) st e h =
      guard-IsRefused st _ _ (guard-denied st _ h)
  denied_changes_nothing (call_describe_table source table) st e h =
      guard-IsRefused st _ _ (guard-IsRefused st _ _ (guard-denied st _ h))
  denied_changes_nothing (call_query input) st e h = guard-IsRefused st _ _ (guard-denied st _ h)
  denied_changes_nothing (call_register_source name config_ref) st e h =
      if-IsRefused st s.managed _ (registering_denied s.source_resolver)
    where
      registering_denied :
          (r : Option Resolver) → IsRefused st (registering store json s r name config_ref st)
      registering_denied none = (refl, (no_such_tool, refl))
      registering_denied (some resolve) =
          guard-IsRefused st _ _ (guard-IsRefused st _ _ (guard-denied st _ h))
  denied_changes_nothing (call_remove_source source) st e h =
      if-IsRefused st s.managed _ (guard-IsRefused st _ _ (guard-denied st _ h))

-- What is used of `Executor.Run`: a result of it is the result of the callback on some database.
abbrev pub RunsCallback : {S : Type 0} → Store S → Type 1
RunsCallback {S} store =
    (A : Type 0) (source : String) (f : Database → Result A) (st : S) (a : A)
    → (store.run source f st).1 ≡ ok a
    → (db : Database) × (f db ≡ ok a)

-- What an answered query had: the policy's consent, and a plan within the server's limits that the
-- answer keeps to on the database that it comes from.
pub record Answered (json : Encoder) (s : Server) (input : QueryInput) (out : QueryOutput)
    : Type 0 where
  pub permitted : s.policy query input.source ≡ none
  pub planned : Plan
  pub from_input : plan s input ≡ ok planned
  pub read_only : IsReadOnly planned.query
  pub few_rows : out.row_count ≤ s.maximum_max_rows
  pub database : Database
  pub answers : Answers json planned database out
  pub few_bytes : answers.size ≤ s.maximum_max_bytes

guard-ok :
    {S : Type 0} (st : S) (g : Option ToolError) (k : S × Result Output) {out : Output}
    → (guard g st k).1 ≡ ok out
    → (g ≡ none) × (k.1 ≡ ok out)
guard-ok st none k h = (refl, h)
guard-ok st (some e) k h = ground arith

prepared-ok :
    {S A : Type 0} (st : S) (r : Result A) (k : A → S × Result Output) {out : Output}
    → (prepared r st k).1 ≡ ok out
    → (a : A) × (r ≡ ok a) × ((k a).1 ≡ ok out)
prepared-ok st (ok a) k h = (a, refl, h)
prepared-ok st (err e) k h = ground arith

module _ {S : Type 0} (store : Store S) (json : Encoder) (s : Server)
    (runs : RunsCallback store) where
  -- `db_query` answers only what the policy permits: a single SELECT without INTO, with at most the server's maximum of rows and
  -- of encoded bytes, and the rows are the first of the query's result.
  pub query_answers_within_limits :
      (input : QueryInput) (st : S) (out : QueryOutput)
      → (handle_query store json s input st).1 ≡ ok (answered out)
      → Answered json s input out
  unfolding handle_query
  query_answers_within_limits input st out h =
      let (_, h1) = guard-ok st (require_source input.source) _ h in
      let (permitted, h2) = guard-ok st (s.policy query input.source) _ h1 in
      let (p, from_input, h3) =
        prepared-ok st (plan s input)
          (λ q. with_result (λ o. ok (answered o)) (store.run input.source (run_query json q) st))
          h2 in
      let (o, ran, h4) =
        Result-bind (store.run input.source (run_query json p) st).1 (λ o. ok (answered o)) h3 in
      let (db, called) = runs QueryOutput input.source (run_query json p) st o ran in
      let same : o ≡ out = ground (arith, h4) in
      let answers = subst (Answers json p db) same (run_query-Answers json p db o called) in
      let (read_only, source, rows, bytes, positive, time) = plan-within s input p from_input in
      record {
        permitted = permitted;
        planned = p;
        from_input = from_input;
        read_only = read_only;
        few_rows = omega (arith, answers.few, rows);
        database = db;
        answers = answers;
        few_bytes = omega (arith, answers.small, bytes);
      }
