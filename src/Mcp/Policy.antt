-- ===== src/Mcp/Policy.antt =====
-- mcpserver/policy.go. A policy is what its `Authorize` returns for an operation on a source.
use dbstore.Common.{
  ◌≡◌, ◌↔◌, ◌⊎◌, Bool, true, false, String, Option, none, some, arith, if◌then◌else◌,
}
use dbstore.Mcp.Operation.{
  Operation, list_sources, ping, list_tables, describe_table, query, register_source, remove_source,
  other,
}
use dbstore.Mcp.Errors.{ToolError, disabled_by_inspection, disabled_by_capability}

abbrev pub Policy : Type 0
Policy = Operation → String → Option ToolError

unfoldable pub inspection_policy : Policy
inspection_policy list_sources source = none
inspection_policy ping source = none
inspection_policy list_tables source = none
inspection_policy describe_table source = none
inspection_policy operation source = some (disabled_by_inspection operation)

unfoldable pub capability_policy : Bool → Bool → Policy
capability_policy allow_query allow_manage list_sources source = none
capability_policy allow_query allow_manage ping source = none
capability_policy allow_query allow_manage list_tables source = none
capability_policy allow_query allow_manage describe_table source = none
capability_policy allow_query allow_manage query source =
    if allow_query then none else some (disabled_by_capability query)
capability_policy allow_query allow_manage register_source source =
    if allow_manage then none else some (disabled_by_capability register_source)
capability_policy allow_query allow_manage remove_source source =
    if allow_manage then none else some (disabled_by_capability remove_source)
capability_policy allow_query allow_manage (other o) source =
    some (disabled_by_capability (other o))

unfoldable pub query_policy : Policy
unfolding capability_policy
query_policy = capability_policy true false

allow_all_policy : Policy
allow_all_policy operation source = none

-- Reading metadata, running SQL, and changing which sources there are.
pub data Kind : Type 0 where
  inspects queries manages unknown : Kind

abbrev pub kind : Operation → Kind
kind query = queries
kind register_source = manages
kind remove_source = manages
kind (other _) = unknown
kind _ = inspects

-- The capability policy permits an operation exactly if it only inspects, or is a query and queries
-- are allowed, or manages sources and managing is allowed; an unknown operation is always denied.
pub capability_policy_exact :
    (q m : Bool) (o : Operation) (source : String)
    → (capability_policy q m o source ≡ none)
      ↔ ((kind o ≡ inspects) ⊎ (kind o ≡ queries) × (q ≡ true) ⊎ (kind o ≡ manages) × (m ≡ true))
unfolding capability_policy
capability_policy_exact q m list_sources source = ground arith
capability_policy_exact q m ping source = ground arith
capability_policy_exact q m list_tables source = ground arith
capability_policy_exact q m describe_table source = ground arith
capability_policy_exact q m query source = ground arith
capability_policy_exact q m register_source source = ground arith
capability_policy_exact q m remove_source source = ground arith
capability_policy_exact q m (other x) source = ground arith

-- The built-in policies form a chain: what the inspection policy permits, every capability policy
-- permits, and what the inspection policy or the query policy permits never changes the sources.
builtin_policies_ordered :
    (q m : Bool) (o : Operation) (source : String)
    → (inspection_policy o source ≡ none → capability_policy q m o source ≡ none)
      × (inspection_policy o source ≡ none → query_policy o source ≡ none)
      × (query_policy o source ≡ none → (kind o ≡ inspects) ⊎ (kind o ≡ queries))
      × (inspection_policy o source ≡ none → kind o ≡ inspects)
unfolding inspection_policy capability_policy query_policy
builtin_policies_ordered q m list_sources source = ground arith
builtin_policies_ordered q m ping source = ground arith
builtin_policies_ordered q m list_tables source = ground arith
builtin_policies_ordered q m describe_table source = ground arith
builtin_policies_ordered q m query source = ground arith
builtin_policies_ordered q m register_source source = ground arith
builtin_policies_ordered q m remove_source source = ground arith
builtin_policies_ordered q m (other x) source = ground arith
