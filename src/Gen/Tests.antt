-- ===== src/Gen/Tests.antt =====
-- The generator on concrete inputs.
mod Runs
use dbstore.Common.{
  decimal, ◌≡◌, ◌≢◌, refl, ◌↔◌, Bool, true, false, String, str_eq, Option, none, some, List, [],
  ◌∷◌, lookup, All, inl, inr, if◌then◌else◌, IsSorted, occurrences,
}
use dbstore.Gen.Errors.{GenError, Result, ok, err}
use dbstore.Gen.Spec.{
  import_path, parse_backend_spec, spec_of, parse_backend_spec-spec_of, sqlx_path,
}
use dbstore.Gen.Config.{
  Config, ConfigBackend, member, validate, load_config, IsSound, IsLoaded, load_config-Loads,
}
use dbstore.Gen.Alias.{Used, Assigned, unique_import_alias, unique_import_alias-Assigned}
use dbstore.Gen.Names.{Cases}
use dbstore.Gen.Parser.{
  Package, text, named, GoType, slice, plain, reserved, Signature, Decl, type_decl, Loaded,
  Interface, parse_interface,
}
use dbstore.Gen.View.{Backend, MethodView, build_view}
use dbstore.Gen.View.Imports.{Imports, build_view-Imports}
use dbstore.Gen.Implementation.{
  Entry, FileDecl, func, ident, star, missing_method_names, method_names, itself,
}
use dbstore.Gen.Resolve.{AdapterPackage, Loader}
use dbstore.Gen.Files.{Files, Os}
use dbstore.Gen.Plan.{Flags, Tools, Target, target, preflight}
use dbstore.Gen.Plan.Ready.{IsReady, Passes, preflight-IsReady}
use dbstore.Gen.Run.{Renderers, run}
use dbstore.Gen.Run.Kept.{generated, run-Keeps, run-unready}
use dbstore.Gen.Run.Complete.{HasGenerated, run-HasGenerated}

parse_backend_spec-spec_of_example :
    (parse_backend_spec (spec_of "main" "sqlite") ≡ ok ("main", import_path "sqlite"))
    × (parse_backend_spec "main" ≡ ok ("main", import_path "main"))
parse_backend_spec-spec_of_example =
    parse_backend_spec-spec_of "main" "sqlite" (refl, (refl, (refl, (refl, tt)))) (λ h. cc)
      (λ h. cc)

abbrev config : Config
config = record {
  interface = "UserRepository";
  source = "user.go";
  test = true;
  backends =
      record { name = "sqlite"; adapter = "sqlite" }
      ∷ record { name = "rest"; adapter = "rest" }
      ∷ [];
}

config_passes : validate config ≡ none
unfolding validate
config_passes = refl

-- The file `etc/gen.yaml`.
loaded_config :
    load_config "etc/gen.yaml" (ok config) ≡ ok (record config { source = "etc/user.go" })
unfolding load_config validate dbstore.Gen.Paths.join dbstore.Gen.Paths.dir_of
    dbstore.Gen.Paths.clean dbstore.Gen.Paths.split_slash
loaded_config = refl

load_config-Loads_example :
    (load_config "etc/gen.yaml" (ok config) ≡ ok (record config { source = "etc/user.go" })) ↔ (
      (cfg : Config) × (◌≡◌ {A = Result Config} (ok config) (ok cfg))
      × IsSound cfg
      × IsLoaded "etc/gen.yaml" cfg (record config { source = "etc/user.go" }))
load_config-Loads_example =
    load_config-Loads "etc/gen.yaml" (ok config) (record config { source = "etc/user.go" })

abbrev clash : Used
clash = ("sqlx", "a/sqlx") ∷ ("sqlx2", "b/sqlx") ∷ []

third :
    unique_import_alias "sqlx" "c/sqlx" clash
    ≡ some ("sqlx3", ("sqlx", "a/sqlx") ∷ ("sqlx2", "b/sqlx") ∷ ("sqlx3", "c/sqlx") ∷ [])
unfolding unique_import_alias decimal
third = refl

unique_import_alias-Assigned_example :
    (r : String × Used) × (unique_import_alias "sqlx" "c/sqlx" clash ≡ some r)
    × Assigned "c/sqlx" clash r
unique_import_alias-Assigned_example = unique_import_alias-Assigned "sqlx" "c/sqlx" clash

abbrev context_type : GoType
context_type = plain (named (some (record { path = "context"; name = "context" })) "Context" ∷ [])

abbrev error_type : GoType
error_type = plain (named none "error" ∷ [])

-- Find(ctx context.Context, ids ...dbstore.ID) (*time.Time, error), with another package named dbstore
abbrev find : Signature
find = record {
  params =
      ("ctx", context_type)
      ∷ (
        "ids",
        slice
            (plain (named (some (record { path = "other/dbstore"; name = "dbstore" })) "ID" ∷ [])),
      )
      ∷ [];
  variadic = true;
  results =
      plain (text "*" ∷ named (some (record { path = "time"; name = "time" })) "Time" ∷ [])
      ∷ error_type
      ∷ [];
}

-- Create(context.Context, string) error
abbrev create : Signature
create = record {
  params = ("", context_type) ∷ ("", plain (named none "string" ∷ [])) ∷ [];
  variadic = false;
  results = error_type ∷ [];
}

abbrev loaded : Loaded
loaded = record { package_name = "repo"; methods = ("Find", find) ∷ ("Create", create) ∷ [] }

abbrev declared : List Decl
declared = type_decl (("User", false) ∷ ("UserRepository", true) ∷ []) ∷ []

abbrev users : Interface
users = record {
  name = "UserRepository";
  package_name = "repo";
  methods =
      record {
        name = "Create";
        params = record { name = "arg1"; type = "string"; variadic = false } ∷ [];
        has_value = false;
        value_type = "";
      }
      ∷ record {
        name = "Find";
        params = record { name = "ids"; type = "dbstore2.ID"; variadic = true } ∷ [];
        has_value = true;
        value_type = "*time.Time";
      }
      ∷ [];
  imports = ("context", "context") ∷ ("other/dbstore", "dbstore2") ∷ ("time", "time") ∷ [];
}

parses : parse_interface "UserRepository" (ok declared) (ok loaded) ≡ ok users
unfolding parse_interface unique_import_alias decimal
parses = refl

-- Package unicode on the letters of the tests.
abbrev cases : Cases
cases = record { to_upper = λ c. c; to_lower = λ c. c }

abbrev sqlx_backend : String → Backend
sqlx_backend name = record { name = name; import_path = sqlx_path; pkg_name = "time" }

build_view-Imports_example :
    Imports (build_view cases users (sqlx_backend "one" ∷ sqlx_backend "two" ∷ []))
build_view-Imports_example =
    build_view-Imports cases "UserRepository" (ok declared) (ok loaded) users
      (sqlx_backend "one" ∷ sqlx_backend "two" ∷ []) parses
