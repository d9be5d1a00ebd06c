-- ===== src/Gen/Tests/Runs.antt =====
-- Runs of the generator on concrete files.
mod Again
use dbstore.Common.{
  ◌<>◌, before_suffix, has_suffix, trim_suffix, decimal, sym, ap, ◌∙◌, ◌≡◌, refl, ◌↔◌, Bool, true,
  false, String, none, some, List, [], ◌∷◌, lookup, All,
}
use dbstore.Gen.Errors.{GenError, tooling, Result, ok, err}
use dbstore.Gen.Config.{member}
use dbstore.Gen.Alias.{unique_import_alias}
use dbstore.Gen.View.{
  method_view, BackendView, MethodView, Backend, BackendView, MethodView, GenView, build_view,
}
use dbstore.Gen.Implementation.{
  render_missing_method_stubs, Inspected, Entry, FileDecl, func, ident, star, missing_method_names,
  method_names, itself, inspect_backend, missing_methods,
}
use dbstore.Gen.Resolve.{AdapterPackage, Loader}
use dbstore.Gen.Files.{Files, Os, Outcome, write_rendered, write_if_missing}
use dbstore.Gen.Plan.{Flags, Tools, Target, target, preflight, stub_path}
use dbstore.Gen.Plan.Ready.{IsReady, IsReadyAs, Passes, preflight-IsReady}
use dbstore.Gen.Run.{Renderers, run, out_path, suite_path, registry_path, fixture_path}
use dbstore.Gen.Run.Kept.{run-Keeps, run-unready}
use dbstore.Gen.Run.Again.{run-again}
use dbstore.Gen.Run.Complete.{HasGenerated, run-HasGenerated}
use dbstore.Gen.Tests.{config, cases, declared, loaded}

-- The method `Create` on a pointer receiver, and `Find` on the type, in two files.
abbrev entries : List Entry
entries =
    record {
      name = "sql.go";
      is_dir = false;
      parsed = ok (func "Create" (star (ident "sqliteUserBackend") ∷ []) ∷ []);
    }
    ∷ record {
      name = "more.go";
      is_dir = false;
      parsed = ok (func "Find" (ident "sqliteUserBackend" ∷ []) ∷ []);
    }
    ∷ record { name = "notes.txt"; is_dir = false; parsed = err (tooling 1) }
    ∷ []

abbrev packages : String → Result (List AdapterPackage)
packages path = ok (
    record {
      name = "adapter";
      has_types = true;
      has_errors = false;
      scope = "Handle" ∷ "Source" ∷ [];
    }
    ∷ [])

abbrev tools : List Entry → Tools
tools found = record {
  cases = cases;
  loader = record { is_identifier = λ name. true; load = packages };
  decode = λ path. ok config;
  parse_file = λ source. ok declared;
  load_interface = λ source name. ok loaded;
  read_dir = λ dir. ok found;
}

abbrev os : Os
os = record { stat_fails = λ path. false; write_fails = λ path. false; part = λ path text. none }

abbrev render : Renderers
render = record {
  gen_file = λ view. ok "gen";
  compliance_suite = λ view. ok "suite";
  fixture_stub = λ view b. ok "fixture";
  compliance_registry = λ view. ok "registry";
  backend_stub = λ view b. ok "stub";
}

abbrev flags : Flags
flags = record {
  config = "gen.yaml";
  interface = "";
  source = "";
  out = "";
  test = false;
  backends = [];
}

abbrev before : Files
before = ("user_gen.go", "old") ∷ ("user_compliance_test.go", "mine") ∷ []

runs : run (λ fs. tools entries) os render flags before ≡ (
  ("user_gen.go", "gen")
      ∷ ("user_compliance_test.go", "mine")
      ∷ ("user_sqlite_test.go", "fixture")
      ∷ ("user_rest_test.go", "fixture")
      ∷ ("user_compliance_gen_test.go", "registry")
      ∷ ("user_rest.go", "stub")
      ∷ [],
  none,
)
unfolding run target dbstore.Gen.Config.load_config dbstore.Gen.Paths.join dbstore.Gen.Paths.dir_of
    dbstore.Gen.Parser.parse_interface unique_import_alias decimal dbstore.Gen.Resolve.resolve_all
    dbstore.Gen.Spec.parse_backend_spec dbstore.Gen.Spec.cut_colon dbstore.Gen.Spec.spec_of
    build_view preflight inspect_backend dbstore.Gen.View.backend_view dbstore.Gen.Names.upper_first
    missing_methods dbstore.Gen.Config.validate dbstore.Gen.Files.each write_if_missing
    dbstore.Gen.Implementation.is_skipped dbstore.Gen.Names.base_name before_suffix has_suffix
    dbstore.Gen.Names.lower_first trim_suffix dbstore.Gen.Paths.base_of dbstore.Gen.Paths.clean
    dbstore.Gen.Paths.split_slash stub_path fixture_path out_path registry_path suite_path
    dbstore.Gen.View.other_paths dbstore.Gen.View.take_imports dbstore.Gen.View.method_view
runs = refl

run-Keeps_example :
    lookup "user_compliance_test.go" (run (λ fs. tools entries) os render flags before).0
    ≡ some "mine"
unfolding target dbstore.Gen.Config.load_config dbstore.Gen.Paths.join dbstore.Gen.Paths.dir_of
    dbstore.Gen.Parser.parse_interface unique_import_alias decimal dbstore.Gen.Resolve.resolve_all
    dbstore.Gen.Spec.parse_backend_spec dbstore.Gen.Spec.cut_colon dbstore.Gen.Spec.spec_of
    build_view preflight inspect_backend dbstore.Gen.View.backend_view dbstore.Gen.Names.upper_first
    missing_methods dbstore.Gen.Config.validate dbstore.Gen.Files.each write_if_missing
    dbstore.Gen.Implementation.is_skipped dbstore.Gen.Names.base_name before_suffix has_suffix
    dbstore.Gen.Names.lower_first trim_suffix dbstore.Gen.Paths.base_of dbstore.Gen.Paths.clean
    dbstore.Gen.Paths.split_slash stub_path fixture_path out_path registry_path suite_path
    dbstore.Gen.View.other_paths dbstore.Gen.View.take_imports dbstore.Gen.View.method_view
run-Keeps_example =
    run-Keeps (λ fs. tools entries) os render flags before "user_compliance_test.go" "mine" refl
      refl

run-HasGenerated_example :
    HasGenerated
      (λ fs. tools entries)
      os
      render
      flags
      before
      (run (λ fs. tools entries) os render flags before).0
run-HasGenerated_example =
    run-HasGenerated (λ fs. tools entries) os render flags before (ap (λ (o : Outcome). o.1) runs)

-- What was found, or an empty target.
abbrev got : Result Target → Target
got (ok t) = t
got (err e) = record {
  view = record {
    package_name = "";
    interface_name = "";
    base = "";
    wrapper_struct = "";
    constructor = "";
    capabilities = "";
    methods = [];
    backends = [];
    imports = [];
    domain_imports = [];
  };
  dir = "";
  base = "";
  test = false;
}

abbrev users_target : Target
users_target = got (target (tools entries) flags)

preflight-IsReady_example :
    Passes (tools entries) os before users_target users_target.view.backends
    ↔ All (IsReady (tools entries) os before users_target) users_target.view.backends
preflight-IsReady_example =
    preflight-IsReady (tools entries) os before users_target users_target.view.backends

-- Without the file that has `Find`.
abbrev older : List Entry
older =
    record {
      name = "sql.go";
      is_dir = false;
      parsed = ok (func "Create" (star (ident "sqliteUserBackend") ∷ []) ∷ []);
    }
    ∷ []

older-target : target (tools older) flags ≡ ok users_target
unfolding target dbstore.Gen.Config.load_config dbstore.Gen.Paths.join dbstore.Gen.Paths.dir_of
    dbstore.Gen.Parser.parse_interface unique_import_alias decimal dbstore.Gen.Resolve.resolve_all
    dbstore.Gen.Spec.parse_backend_spec dbstore.Gen.Spec.cut_colon dbstore.Gen.Spec.spec_of
    build_view preflight inspect_backend dbstore.Gen.View.backend_view dbstore.Gen.Names.upper_first
    missing_methods dbstore.Gen.Config.validate dbstore.Gen.Files.each write_if_missing
    dbstore.Gen.Implementation.is_skipped dbstore.Gen.Names.base_name before_suffix has_suffix
    dbstore.Gen.Names.lower_first trim_suffix dbstore.Gen.Paths.base_of dbstore.Gen.Paths.clean
    dbstore.Gen.Paths.split_slash stub_path fixture_path out_path registry_path suite_path
    dbstore.Gen.View.other_paths dbstore.Gen.View.take_imports dbstore.Gen.View.method_view
older-target = refl

-- A check that fails.
is_err : {A : Type 0} → Result A → Bool
is_err (ok a) = false
is_err (err e) = true

older_fails :
    is_err (preflight (tools older) os before users_target users_target.view.backends) ≡ true
unfolding is_err target dbstore.Gen.Config.load_config dbstore.Gen.Paths.join
    dbstore.Gen.Paths.dir_of dbstore.Gen.Parser.parse_interface unique_import_alias decimal
    dbstore.Gen.Resolve.resolve_all dbstore.Gen.Spec.parse_backend_spec dbstore.Gen.Spec.cut_colon
    dbstore.Gen.Spec.spec_of build_view preflight inspect_backend dbstore.Gen.View.backend_view
    dbstore.Gen.Names.upper_first missing_methods dbstore.Gen.Config.validate dbstore.Gen.Files.each
    write_if_missing dbstore.Gen.Implementation.is_skipped dbstore.Gen.Names.base_name before_suffix
    has_suffix dbstore.Gen.Names.lower_first trim_suffix dbstore.Gen.Paths.base_of
    dbstore.Gen.Paths.clean dbstore.Gen.Paths.split_slash stub_path fixture_path out_path
    registry_path suite_path dbstore.Gen.View.other_paths dbstore.Gen.View.take_imports
    dbstore.Gen.View.method_view
older_fails = refl

older_unready : ¬ (All (IsReady (tools older) os before users_target) users_target.view.backends)
unfolding is_err
older_unready ready =
    let (names, passed) =
      (preflight-IsReady (tools older) os before users_target users_target.view.backends).1 ready in
    let clash : false ≡ true = sym (ap is_err passed) ∙ older_fails in cc

run-unready_example :
    (e : GenError) × (run (λ fs. tools older) os render flags before ≡ (before, some e))
run-unready_example =
    run-unready (λ fs. tools older) os render flags before users_target older-target older_unready

abbrev wanted : List MethodView
wanted = users_target.view.methods
