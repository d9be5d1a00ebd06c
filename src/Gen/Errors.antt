-- ===== src/Gen/Errors.antt =====
-- The errors of cmd/dbstore-gen.
use dbstore.Common.{ℕ, String, List, ◌≡◌, refl, ◌⊎◌, inl, inr}

pub data GenError : Type 0 where
  -- loadConfig
  interface_missing source_missing no_backends empty_name : GenError
  adapter_missing duplicate_name : String → GenError
  -- parseBackendSpec
  spec_without_name spec_without_adapter : String → GenError
  -- run
  config_with_flags interface_required source_required : GenError
  missing_methods : String → String → List String → String → GenError
  stub_without_type : String → String → GenError
  duplicate_backend invalid_name : String → GenError
  backend_not_found backend_has_errors handle_missing source_type_missing : String → GenError
  stat_failed write_failed render_failed : String → GenError
  -- parseMethod, with the type or the number that it met
  no_parameters : GenError
  first_not_context single_not_error second_not_error : String → GenError
  results_unsupported : ℕ → GenError
  -- More rounds of `uniqueImportAlias` than there are aliases in use, which does not happen.
  endless : GenError
  interface_undeclared : String → List String → GenError
  -- What go/packages, go/parser or yaml report, and the checks on their results.
  tooling : ℕ → GenError

pub data Result {ℓ} (A : Type ℓ) : Type ℓ where
  err : GenError → Result A
  ok : A → Result A

module _ {A B : Type 0} where
  infixl 5 ◌>>=◌
  abbrev pub ◌>>=◌ : Result A → (A → Result B) → Result B
  ok found >>= next = next found
  err problem >>= next = err problem

pub Result-cases :
    {A : Type 0} (r : Result A) → ((a : A) × (r ≡ ok a)) ⊎ ((e : GenError) × (r ≡ err e))
Result-cases (err e) = inr (e, refl)
Result-cases (ok a) = inl (a, refl)

-- A chain that gives a value has a value in its first link.
pub bind-ok :
    {A B : Type 0} (r : Result A) (f : A → Result B) (b : B)
    → (r >>= f) ≡ ok b
    → (a : A) × (r ≡ ok a) × (f a ≡ ok b)
bind-ok (err e) f b h = cc
bind-ok (ok a) f b h = (a, refl, h)
