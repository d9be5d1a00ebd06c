-- ===== src/Mcp/Errors.antt =====
-- The errors of mcpserver's tools.
use dbstore.Common.{ℕ, String, Option, none, some, ◌≡◌, refl, ◌⊎◌, inl, inr}
use dbstore.Store.Errors.{Error}
use dbstore.Mcp.Operation.{Operation}

pub data ToolError : Type 0 where
  source_required table_required config_ref_required : ToolError
  disabled_by_inspection disabled_by_capability : Operation → ToolError
  -- A policy of the application's own.
  disabled_by_policy : ℕ → ToolError
  query_required nul_byte several_statements not_select select_into : ToolError
  max_rows_exceeded max_bytes_exceeded : ℕ → ToolError
  timeout_out_of_range : ToolError
  result_too_large : ℕ → ToolError
  encode_failed : ToolError
  unsupported_driver : String → ToolError
  table_not_found : String → ToolError
  unresolved_config registration_failed : ToolError
  -- The SDK's answer for a tool that the server does not have.
  no_such_tool : ToolError
  -- An error of dbstore or of the database, as it is.
  store_error : Error → ToolError

pub data Result {ℓ} (A : Type ℓ) : Type ℓ where
  ok : A → Result A
  err : ToolError → Result A

infixl 5 ◌>>◌
-- An error of the first part is the error of the whole.
module _ {ℓ κ} {A : Type ℓ} {B : Type κ} where
  infixl 5 ◌>>=◌
  abbrev pub ◌>>=◌ : Result A → (A → Result B) → Result B
  err problem >>= rest = err problem
  ok value >>= rest = rest value

abbrev pub ◌>>◌ {κ} : {B : Type κ} → Result (Unit {0}) → Result B → Result B
first >> rest = first >>= λ nothing. rest

-- A check that returns an error or nil.
abbrev pub check : Option ToolError → Result (Unit {0})
check none = ok tt
check (some e) = err e

pub Result-cases {ℓ} :
    {A : Type ℓ} (r : Result A) → ((a : A) × (r ≡ ok a)) ⊎ ((e : ToolError) × (r ≡ err e))
Result-cases (ok a) = inl (a, refl)
Result-cases (err e) = inr (e, refl)
