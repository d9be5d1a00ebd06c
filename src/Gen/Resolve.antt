-- ===== src/Gen/Resolve.antt =====
-- `resolveBackend` of cmd/dbstore-gen/generator.go, and the loop of main.go that calls it. What go/token and
-- go/packages say is an argument.
use dbstore.Common.{Bool, not, String, List, [], ◌∷◌, if◌then◌else◌}
use dbstore.Gen.Spec.{parse_backend_spec}
use dbstore.Gen.Config.{member}
use dbstore.Gen.View.{Backend}
use dbstore.Gen.Errors.{
  invalid_name, duplicate_backend, backend_not_found, backend_has_errors, handle_missing,
  source_type_missing, Result, ok, err, ◌>>=◌,
}

pub record AdapterPackage : Type 0 where
  pub name : String
  pub has_types : Bool
  pub has_errors : Bool
  -- the names that its scope has
  pub scope : List String

pub record Loader : Type 0 where
  pub is_identifier : String → Bool
  pub load : String → Result (List AdapterPackage)

check_package : String → String → List AdapterPackage → Result Backend
check_package name path [] = err (backend_not_found path)
check_package name path (p ∷ _) =
    if not p.has_types
    then err (backend_not_found path)
    else if p.has_errors
    then err (backend_has_errors path)
    else if not (member "Handle" p.scope)
    then err (handle_missing path)
    else if not (member "Source" p.scope)
    then err (source_type_missing path)
    else ok (record { name = name; import_path = path; pkg_name = p.name })

unfoldable pub resolve_backend : Loader → String → String → Result Backend
unfolding check_package
resolve_backend loader name path =
    if loader.is_identifier name
    then (loader.load path >>= check_package name path)
    else err (invalid_name name)

-- The loop over the specs, with the names seen so far.
unfoldable pub resolve_all : Loader → List String → List String → Result (List Backend)
unfolding resolve_backend
resolve_all loader seen [] = ok []
resolve_all loader seen (spec ∷ specs) = parse_backend_spec spec >>= λ (s : String × String).
    if member s.0 seen
    then err (duplicate_backend s.0)
    else (resolve_backend loader s.0 s.1 >>= λ (b : Backend).
        resolve_all loader (s.0 ∷ seen) specs >>= λ (bs : List Backend). ok (b ∷ bs))
