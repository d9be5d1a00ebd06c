-- ===== src/Mcp/Operation.antt =====
-- The operations of mcpserver/policy.go. `Operation` is a string there, so there are others.
use dbstore.Common.{String}

pub data Operation : Type 0 where
  list_sources ping list_tables describe_table query register_source remove_source : Operation
  other : String → Operation
