-- ===== src/Gen/Plan.antt =====
-- What `run` of cmd/dbstore-gen/main.go does before it writes: options, parsing, and the check of the backends
-- that are there.
pub mod Ready
use dbstore.Common.{
  trim_suffix, ◌<>◌, ◌≡◌, refl, Bool, true, false, String, str_eq, Option, none, some, List, [],
  ◌∷◌, lookup, if◌then◌else◌, ◌||◌,
}
use dbstore.Gen.Spec.{spec_of}
use dbstore.Gen.Paths.{join, dir_of, base_of}
use dbstore.Gen.Config.{Config, ConfigBackend, load_config}
use dbstore.Gen.Parser.{Decl, Loaded, Interface, parse_interface}
use dbstore.Gen.Names.{Cases}
use dbstore.Gen.View.{Backend, MethodView, BackendView, GenView, build_view}
use dbstore.Gen.Implementation.{
  Entry, Inspected, inspect_backend, missing_methods, method_names, render_missing_method_stubs,
}
use dbstore.Gen.Resolve.{Loader, resolve_all}
use dbstore.Gen.Files.{Files, Os}
use dbstore.Gen.Errors.{
  GenError, config_with_flags, interface_required, source_required, missing_methods as lacks,
  stub_without_type, stat_failed, Result, ok, err, ◌>>=◌,
}

-- The flags, as package flag parses them.
pub record Flags : Type 0 where
  pub config : String
  pub interface : String
  pub source : String
  pub out : String
  pub test : Bool
  pub backends : List String

-- What the packages that the command calls say, of the files as they are when the command asks.
pub record Tools : Type 0 where
  pub cases : Cases
  pub loader : Loader
  pub decode : String → Result Config
  pub parse_file : String → Result (List Decl)
  pub load_interface : String → String → Result Loaded
  pub read_dir : String → Result (List Entry)

pub record Options : Type 0 where
  pub interface : String
  pub source : String
  pub test : Bool
  pub specs : List String

specs_of : List ConfigBackend → List String
specs_of [] = []
specs_of (b ∷ bs) = spec_of b.name b.adapter ∷ specs_of bs

options_of : Bool → Config → Options
unfolding specs_of
options_of test cfg = record {
  interface = cfg.interface;
  source = cfg.source;
  test = cfg.test || test;
  specs = specs_of cfg.backends;
}

abbrev is_empty : {A : Type 0} → List A → Bool
is_empty [] = true
is_empty (x ∷ xs) = false

abbrev with_source : Options → Result Options
with_source o = if str_eq o.source "" then err source_required else ok o

abbrev with_interface : Flags → Result Options
with_interface flags =
    if str_eq flags.interface ""
    then err interface_required
    else with_source (record {
      interface = flags.interface;
      source = flags.source;
      test = flags.test;
      specs = flags.backends;
    })

abbrev from_config : Tools → Flags → Result Options
from_config tools flags = load_config flags.config (tools.decode flags.config) >>= λ (cfg : Config).
    with_source (options_of flags.test cfg)

-- The options in effect.
unfoldable pub options : Tools → Flags → Result Options
unfolding options_of
options tools flags =
    if str_eq flags.config ""
    then with_interface flags
    else if str_eq flags.interface ""
    then (if is_empty flags.backends then from_config tools flags else err config_with_flags)
    else err config_with_flags

-- What is to be generated, and where.
pub record Target : Type 0 where
  pub view : GenView
  pub dir : String
  pub base : String
  pub test : Bool

target_of : Options → GenView → Target
target_of o view = record {
  view = view;
  dir = dir_of o.source;
  base = trim_suffix (base_of o.source) ".go";
  test = o.test;
}

unfoldable pub target : Tools → Flags → Result Target
unfolding options target_of
target tools flags = options tools flags >>= λ (o : Options).
    parse_interface o.interface (tools.parse_file o.source)
      (tools.load_interface o.source o.interface)
    >>= λ (i : Interface). resolve_all tools.loader [] o.specs >>= λ (backends : List Backend).
        build_view tools.cases i backends >>= λ (view : GenView). ok (target_of o view)

unfoldable pub stub_path : Target → BackendView → String
stub_path t b = join t.dir (t.base <> ("_" <> (b.name <> ".go")))

-- A file at the path of the stub would not be overwritten.
abbrev free_stub : Os → Files → Target → BackendView → Result Bool
free_stub os fs t b =
    if os.stat_fails (stub_path t b)
    then err (stat_failed (stub_path t b))
    else elim (lookup (stub_path t b) fs) [
      | some _ ↦ err (stub_without_type (stub_path t b) b.backend_struct_name)
      | none ↦ ok false
    ]

abbrev complete : BackendView → List MethodView → Result Bool
complete b [] = ok true
complete b (m ∷ ms) = err (
    lacks b.name b.backend_struct_name (method_names (m ∷ ms))
      (render_missing_method_stubs b (m ∷ ms)))

abbrev judge : Os → Files → Target → BackendView → Inspected → Result Bool
judge os fs t b x =
    if x.exists then complete b (missing_methods t.view.methods x.methods) else free_stub os fs t b

-- Is the backend implemented?
unfoldable pub check_backend : Tools → Os → Files → Target → BackendView → Result Bool
check_backend tools os fs t b =
    inspect_backend (tools.read_dir t.dir) b.backend_struct_name >>= judge os fs t b

-- The names of the backends that are implemented.
unfoldable pub preflight : Tools → Os → Files → Target → List BackendView → Result (List String)
unfolding check_backend
preflight tools os fs t [] = ok []
preflight tools os fs t (b ∷ bs) = check_backend tools os fs t b >>= λ (implemented : Bool).
    preflight tools os fs t bs >>= λ (names : List String).
    ok (if implemented then b.name ∷ names else names)
