-- ===== src/Gen/Tests/Runs/Again.antt =====
-- Runs of the generator that are repeated, and the methods that it offers.
use dbstore.Common.{
  ◌<>◌, before_suffix, has_suffix, trim_suffix, decimal, ◌≡◌, ◌≢◌, ◌∙◌, sym, ap, lookup, refl, Bool,
  String, Option, some, true, false, none, List, [], ◌∷◌, All,
}
use dbstore.Gen.Errors.{ok}
use dbstore.Gen.Config.{member}
use dbstore.Gen.Alias.{unique_import_alias}
use dbstore.Gen.View.{
  method_view, BackendView, MethodView, Backend, BackendView, MethodView, GenView, build_view,
}
use dbstore.Gen.Implementation.{
  render_missing_method_stubs, Inspected, Entry, FileDecl, func, ident, star, missing_method_names,
  method_names, itself, inspect_backend, missing_methods,
}
use dbstore.Gen.Resolve.{AdapterPackage, Loader}
use dbstore.Gen.Files.{Files, Os, Outcome, write_rendered, write_if_missing}
use dbstore.Gen.Plan.{Tools, target, preflight, stub_path}
use dbstore.Gen.Plan.Ready.{IsReadyAs}
use dbstore.Gen.Run.{run, out_path, suite_path, registry_path, fixture_path}
use dbstore.Gen.Run.Again.{run-again}
use dbstore.Gen.Template.{concat}
use dbstore.Gen.Template.Stubs.{stub_head, backend_stub_text}
use dbstore.Gen.Template.Offers.{scaffold-offered}
use dbstore.Gen.Tests.Runs.{entries, tools, os, render, flags, before, users_target}

-- Both backends, implemented.
abbrev complete : List Entry
complete =
    record {
      name = "all.go";
      is_dir = false;
      parsed = ok (
          func "Create" (ident "sqliteUserBackend" ∷ [])
          ∷ func "Find" (ident "sqliteUserBackend" ∷ [])
          ∷ func "Create" (ident "restUserBackend" ∷ [])
          ∷ func "Find" (ident "restUserBackend" ∷ [])
          ∷ []);
    }
    ∷ []

abbrev after : Files
after =
    ("user_gen.go", "gen")
    ∷ ("user_compliance_test.go", "mine")
    ∷ ("user_sqlite_test.go", "fixture")
    ∷ ("user_rest_test.go", "fixture")
    ∷ ("user_compliance_gen_test.go", "registry")
    ∷ ("user_rest.go", "stub")
    ∷ []

-- The second backend is found once its stub is there.
abbrev found : Option String → List Entry
found none = entries
found (some t) = complete

abbrev reading : Files → Tools
reading fs = tools (found (lookup "user_rest.go" fs))

entries-target : target (reading before) flags ≡ ok users_target
unfolding target dbstore.Gen.Config.load_config dbstore.Gen.Paths.join dbstore.Gen.Paths.dir_of
    dbstore.Gen.Parser.parse_interface unique_import_alias decimal dbstore.Gen.Resolve.resolve_all
    dbstore.Gen.Spec.parse_backend_spec dbstore.Gen.Spec.cut_colon dbstore.Gen.Spec.spec_of
    build_view preflight inspect_backend dbstore.Gen.View.backend_view dbstore.Gen.Names.upper_first
    missing_methods dbstore.Gen.Config.validate dbstore.Gen.Files.each write_if_missing
    dbstore.Gen.Implementation.is_skipped dbstore.Gen.Names.base_name before_suffix has_suffix
    dbstore.Gen.Names.lower_first trim_suffix dbstore.Gen.Paths.base_of dbstore.Gen.Paths.clean
    dbstore.Gen.Paths.split_slash stub_path fixture_path out_path registry_path suite_path
    dbstore.Gen.View.other_paths dbstore.Gen.View.take_imports dbstore.Gen.View.method_view
entries-target = refl

complete-target : target (reading after) flags ≡ ok users_target
unfolding target dbstore.Gen.Config.load_config dbstore.Gen.Paths.join dbstore.Gen.Paths.dir_of
    dbstore.Gen.Parser.parse_interface unique_import_alias decimal dbstore.Gen.Resolve.resolve_all
    dbstore.Gen.Spec.parse_backend_spec dbstore.Gen.Spec.cut_colon dbstore.Gen.Spec.spec_of
    build_view preflight inspect_backend dbstore.Gen.View.backend_view dbstore.Gen.Names.upper_first
    missing_methods dbstore.Gen.Config.validate dbstore.Gen.Files.each write_if_missing
    dbstore.Gen.Implementation.is_skipped dbstore.Gen.Names.base_name before_suffix has_suffix
    dbstore.Gen.Names.lower_first trim_suffix dbstore.Gen.Paths.base_of dbstore.Gen.Paths.clean
    dbstore.Gen.Paths.split_slash stub_path fixture_path out_path registry_path suite_path
    dbstore.Gen.View.other_paths dbstore.Gen.View.take_imports dbstore.Gen.View.method_view
complete-target = refl

first_run : run reading os render flags before ≡ (after, none)
unfolding run target dbstore.Gen.Config.load_config dbstore.Gen.Paths.join dbstore.Gen.Paths.dir_of
    dbstore.Gen.Parser.parse_interface unique_import_alias decimal dbstore.Gen.Resolve.resolve_all
    dbstore.Gen.Spec.parse_backend_spec dbstore.Gen.Spec.cut_colon dbstore.Gen.Spec.spec_of
    build_view preflight inspect_backend dbstore.Gen.View.backend_view dbstore.Gen.Names.upper_first
    missing_methods dbstore.Gen.Config.validate dbstore.Gen.Files.each write_if_missing
    dbstore.Gen.Implementation.is_skipped dbstore.Gen.Names.base_name before_suffix has_suffix
    dbstore.Gen.Names.lower_first trim_suffix dbstore.Gen.Paths.base_of dbstore.Gen.Paths.clean
    dbstore.Gen.Paths.split_slash stub_path fixture_path out_path registry_path suite_path
    dbstore.Gen.View.other_paths dbstore.Gen.View.take_imports dbstore.Gen.View.method_view
first_run = refl

abbrev both : Inspected
both = record { exists = true; methods = "Create" ∷ "Find" ∷ [] }

complete-IsReadyAs :
    All (λ b. IsReadyAs (reading after) os after users_target b true) users_target.view.backends
unfolding target dbstore.Gen.Config.load_config dbstore.Gen.Paths.join dbstore.Gen.Paths.dir_of
    dbstore.Gen.Parser.parse_interface unique_import_alias decimal dbstore.Gen.Resolve.resolve_all
    dbstore.Gen.Spec.parse_backend_spec dbstore.Gen.Spec.cut_colon dbstore.Gen.Spec.spec_of
    build_view preflight inspect_backend dbstore.Gen.View.backend_view dbstore.Gen.Names.upper_first
    missing_methods dbstore.Gen.Config.validate dbstore.Gen.Files.each write_if_missing
    dbstore.Gen.Implementation.is_skipped dbstore.Gen.Names.base_name before_suffix has_suffix
    dbstore.Gen.Names.lower_first trim_suffix dbstore.Gen.Paths.base_of dbstore.Gen.Paths.clean
    dbstore.Gen.Paths.split_slash stub_path fixture_path out_path registry_path suite_path
    dbstore.Gen.View.other_paths dbstore.Gen.View.take_imports dbstore.Gen.View.method_view
complete-IsReadyAs =
    ((both, refl, (refl, (refl, (refl, tt)))), ((both, refl, (refl, (refl, (refl, tt)))), tt))

run-again_example : run reading os render flags after ≡ (after, none)
unfolding target dbstore.Gen.Config.load_config dbstore.Gen.Paths.join dbstore.Gen.Paths.dir_of
    dbstore.Gen.Parser.parse_interface unique_import_alias decimal dbstore.Gen.Resolve.resolve_all
    dbstore.Gen.Spec.parse_backend_spec dbstore.Gen.Spec.cut_colon dbstore.Gen.Spec.spec_of
    build_view preflight inspect_backend dbstore.Gen.View.backend_view dbstore.Gen.Names.upper_first
    missing_methods dbstore.Gen.Config.validate dbstore.Gen.Files.each write_if_missing
    dbstore.Gen.Implementation.is_skipped dbstore.Gen.Names.base_name before_suffix has_suffix
    dbstore.Gen.Names.lower_first trim_suffix dbstore.Gen.Paths.base_of dbstore.Gen.Paths.clean
    dbstore.Gen.Paths.split_slash stub_path fixture_path out_path registry_path suite_path
    dbstore.Gen.View.other_paths dbstore.Gen.View.take_imports dbstore.Gen.View.method_view
run-again_example =
    run-again reading os render flags before after users_target entries-target complete-target
      complete-IsReadyAs refl first_run

abbrev sqlite_view : BackendView
sqlite_view = record {
  name = "sqlite";
  pkg_name = "sqlxadapter";
  import_path = "github.com/loykin/dbstore/adapters/sqlx";
  backend_struct_name = "SqliteUserBackend";
  factory_name = "NewSqliteUserRepository";
  connect_factory_name = "ConnectSqliteUserRepository";
  fixture_var_name = "sqliteUserFixture";
}

abbrev find_view : MethodView
find_view = method_view (record {
  name = "Find";
  params = record { name = "ids"; type = "int"; variadic = true } ∷ [];
  has_value = true;
  value_type = "*User";
})

offers_find :
    render_missing_method_stubs sqlite_view (find_view ∷ [])
    ≡ "func (SqliteUserBackend) Find(ctx context.Context, h sqlxadapter.Handle, ids ...int) (*User, error) {\n\tpanic(\"TODO: implement\")\n}"
unfolding render_missing_method_stubs method_view
offers_find = refl

has_methods : List MethodView → Bool
has_methods [] = false
has_methods (m ∷ ms) = true

users_methods : has_methods users_target.view.methods ≡ true
unfolding has_methods target dbstore.Gen.Config.load_config dbstore.Gen.Paths.join
    dbstore.Gen.Paths.dir_of dbstore.Gen.Parser.parse_interface unique_import_alias decimal
    dbstore.Gen.Resolve.resolve_all dbstore.Gen.Spec.parse_backend_spec dbstore.Gen.Spec.cut_colon
    dbstore.Gen.Spec.spec_of build_view preflight inspect_backend dbstore.Gen.View.backend_view
    dbstore.Gen.Names.upper_first missing_methods dbstore.Gen.Config.validate dbstore.Gen.Files.each
    write_if_missing dbstore.Gen.Implementation.is_skipped dbstore.Gen.Names.base_name before_suffix
    has_suffix dbstore.Gen.Names.lower_first trim_suffix dbstore.Gen.Paths.base_of
    dbstore.Gen.Paths.clean dbstore.Gen.Paths.split_slash stub_path fixture_path out_path
    registry_path suite_path dbstore.Gen.View.other_paths dbstore.Gen.View.take_imports
    dbstore.Gen.View.method_view
users_methods = refl

users_have_methods : users_target.view.methods ≢ []
unfolding has_methods
users_have_methods none_left =
    let clash : true ≡ false = sym users_methods ∙ ap has_methods none_left in cc

scaffold-offered_example :
    backend_stub_text users_target.view sqlite_view
    ≡ concat (stub_head users_target.view sqlite_view)
      <> ("\n" <> (render_missing_method_stubs sqlite_view users_target.view.methods <> "\n\n"))
scaffold-offered_example = scaffold-offered users_target.view sqlite_view users_have_methods
