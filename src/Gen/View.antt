-- ===== src/Gen/View.antt =====
-- `buildView` of cmd/dbstore-gen/generator.go: what the templates are filled with.
pub mod Imports
use dbstore.Common.{
  ◌<>◌, ℕ, Bool, true, false, String, str_eq, Option, none, some, List, [], ◌∷◌, ◌++◌, lookup,
  insert, if◌then◌else◌, ◌||◌, sort_by,
}
use dbstore.Gen.Config.{member}
use dbstore.Gen.Alias.{Used}
use dbstore.Gen.Parser.{Param, Method, Interface, Aliases, alias_for, reserved, dbstore_path}
use dbstore.Gen.Names.{Cases, lower_first, upper_first, base_name}
use dbstore.Gen.Errors.{Result, ok, err, ◌>>=◌}

pub record Backend : Type 0 where
  pub name : String
  pub import_path : String
  pub pkg_name : String

pub record MethodView : Type 0 where
  pub name : String
  pub params : List Param
  pub domain_params : String
  pub backend_params : String
  pub domain_args_prefixed : String
  pub return_sig : String
  pub has_value : Bool
  pub value_type : String

pub record BackendView : Type 0 where
  pub name : String
  pub pkg_name : String
  pub import_path : String
  pub backend_struct_name : String
  pub factory_name : String
  pub connect_factory_name : String
  pub fixture_var_name : String

pub record ImportView : Type 0 where
  pub path : String
  pub alias : String

pub record GenView : Type 0 where
  pub package_name : String
  pub interface_name : String
  pub base : String
  pub wrapper_struct : String
  pub constructor : String
  pub capabilities : String
  pub methods : List MethodView
  pub backends : List BackendView
  pub imports : List ImportView
  pub domain_imports : List ImportView

abbrev param_type : Param → String
param_type p = if p.variadic then "..." <> p.type else p.type

abbrev param_arg : Param → String
param_arg p = if p.variadic then p.name <> "..." else p.name

-- The parameters, each after a comma.
unfoldable pub declared_params : List Param → String
declared_params [] = ""
declared_params (p ∷ ps) = ", " <> (p.name <> (" " <> (param_type p <> declared_params ps)))

unfoldable pub passed_args : List Param → String
passed_args [] = ""
passed_args (p ∷ ps) = ", " <> (param_arg p <> passed_args ps)

unfoldable pub method_view : Method → MethodView
unfolding declared_params passed_args
method_view m = record {
  name = m.name;
  params = m.params;
  domain_params = "ctx context.Context" <> declared_params m.params;
  backend_params = "ctx context.Context, h A" <> declared_params m.params;
  domain_args_prefixed = passed_args m.params;
  return_sig = if m.has_value then "(" <> (m.value_type <> ", error)") else "error";
  has_value = m.has_value;
  value_type = m.value_type;
}

method_views : List Method → List MethodView
method_views [] = []
method_views (m ∷ ms) = method_view m ∷ method_views ms

-- The loop over the interface's imports.
unfoldable pub take_imports : List (String × String) → Aliases → Aliases
take_imports [] a = a
take_imports ((path, alias) ∷ rest) a =
    take_imports rest
      (record { imports = insert path alias a.imports; used = insert alias path a.used })

abbrev fixed_imports : Aliases
fixed_imports = record { imports = (dbstore_path, "dbstore") ∷ []; used = reserved }

unfoldable pub backend_view : Cases → String → String → Backend → String → BackendView
backend_view cases base interface b alias = record {
  name = b.name;
  pkg_name = alias;
  import_path = b.import_path;
  backend_struct_name = upper_first cases b.name <> (base <> "Backend");
  factory_name = "New" <> (upper_first cases b.name <> interface);
  connect_factory_name = "Connect" <> (upper_first cases b.name <> interface);
  fixture_var_name = lower_first cases (upper_first cases b.name <> (base <> "Fixture"));
}

-- The loop over the backends, with the names seen so far.
unfoldable pub backend_views :
    Cases
    → String
    → String
    → List String
    → List Backend
    → Aliases
    → Result (List BackendView × Aliases)
backend_views cases base interface seen [] a = ok ([], a)
backend_views cases base interface seen (b ∷ bs) a =
    let skipped = backend_views cases base interface seen bs a in
    if member b.name seen
    then skipped
    else (alias_for b.pkg_name b.import_path a >>= λ (r : String × Aliases).
        backend_views cases base interface (b.name ∷ seen) bs r.1
        >>= λ (q : List BackendView × Aliases).
            ok (backend_view cases base interface b r.0 ∷ q.0, q.1))

-- The keys, but for the two paths that the template imports itself.
unfoldable pub other_paths : List (String × String) → List String
other_paths [] = []
other_paths ((path, _) ∷ rest) =
    let more = other_paths rest in
    if str_eq path "context" || str_eq path dbstore_path then more else path ∷ more

abbrev alias_of : Option String → String
alias_of none = ""
alias_of (some alias) = alias

unfoldable pub import_views : List (String × String) → List String → List ImportView
import_views imports [] = []
import_views imports (path ∷ paths) =
    record { path = path; alias = alias_of (lookup path imports) } ∷ import_views imports paths

-- Those that the interface itself needs.
domain_views : List (String × String) → List ImportView → List ImportView
domain_views domain [] = []
domain_views domain (v ∷ vs) =
    let more = domain_views domain vs in
    elim (lookup v.path domain) [ none ↦ more | some _ ↦ v ∷ more ]

abbrev itself : String → String
itself path = path

view_of : Cases → Interface → List BackendView → List (String × String) → GenView
unfolding method_views other_paths import_views domain_views lower_first base_name
view_of cases i backends imports =
    let base = base_name i.name in
    let views = import_views imports (sort_by itself (other_paths imports)) in
    record {
      package_name = i.package_name;
      interface_name = i.name;
      base = base;
      wrapper_struct = lower_first cases base <> "Repo";
      constructor = "New" <> (base <> "Repo");
      capabilities = lower_first cases base <> "RepoCapabilities";
      methods = method_views i.methods;
      backends = backends;
      imports = views;
      domain_imports = domain_views i.imports views;
    }

-- The only error is that of a search for an alias, which does not happen.
unfoldable pub build_view : Cases → Interface → List Backend → Result GenView
unfolding take_imports backend_views view_of
build_view cases i backends =
    backend_views cases (base_name i.name) i.name [] backends (take_imports i.imports fixed_imports)
    >>= λ (r : List BackendView × Aliases). ok (view_of cases i r.0 r.1.imports)
