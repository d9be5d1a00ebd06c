-- ===== src/Mcp/Server.antt =====
-- mcpserver/server.go: the options of a server, and which tools it offers (`addTools` of tools.go).
use dbstore.Common.{
  ℕ, zero, suc, ◌*◌, ◌^◌, ◌≤◌, ◌<◌, ltb, ◌≡◌, ℤ, pos, negsuc, positive_or, Bool, true, false, not,
  ◌&&◌, String, str_eq, Option, none, some, List, [], ◌∷◌, ◌++◌, if◌then◌else◌, arith,
}
use dbstore.Store.Config.{SourceConfig}
use dbstore.Mcp.Policy.{Policy, inspection_policy}

-- `SourceConfigResolver`; the caller of it drops the error.
abbrev pub Resolver : Type 0
Resolver = String → Option SourceConfig

-- The store, by whether it is a `SourceManager` too.
pub record Options : Type 0 where
  pub store : Option Bool
  pub enable_management : Bool
  pub policy : Option Policy
  pub source_resolver : Option Resolver
  pub name : String
  pub version : String
  pub default_max_rows : ℤ
  pub maximum_max_rows : ℤ
  pub default_max_bytes : ℤ
  pub maximum_max_bytes : ℤ

pub record Server : Type 0 where
  pub managed : Bool
  pub policy : Policy
  pub source_resolver : Option Resolver
  pub name : String
  pub version : String
  pub default_max_rows : ℕ
  pub maximum_max_rows : ℕ
  pub default_max_bytes : ℕ
  pub maximum_max_bytes : ℕ

pub data OptionsError : Type 0 where
  store_required not_a_manager resolver_without_management : OptionsError
  default_rows_above_maximum default_bytes_above_maximum : OptionsError

pub data NewResult : Type 0 where
  created : Server → NewResult
  refused : OptionsError → NewResult

-- `debug.ReadBuildInfo()`: the main module and the dependencies, as path and version.
pub record BuildInfo : Type 0 where
  pub main : String × String
  pub deps : List (String × String)

abbrev module_path : String
module_path = "github.com/loykin/dbstore"

dependency_version : List (String × String) → String
dependency_version [] = "devel"
dependency_version ((path, version) ∷ rest) =
    if str_eq path module_path && not (str_eq version "") then version else dependency_version rest

unfoldable pub implementation_version : Option BuildInfo → String
unfolding dependency_version
implementation_version none = "devel"
implementation_version (some info) =
    if str_eq info.main.0 module_path
      && not (str_eq info.main.1 "")
      && not (str_eq info.main.1 "(devel)")
    then info.main.1
    else dependency_version info.deps

abbrev policy_or_default : Option Policy → Policy
policy_or_default none = inspection_policy
policy_or_default (some p) = p

-- The limits on rows and bytes, with their defaults.
unfoldable pub with_limits : Options → Bool → String → NewResult
with_limits opts managed version =
    let default_rows = positive_or opts.default_max_rows 100 in
    let maximum_rows = positive_or opts.maximum_max_rows 1000 in
    let default_bytes = positive_or opts.default_max_bytes (256 * 2 ^ 10) in
    let maximum_bytes = positive_or opts.maximum_max_bytes (4 * 2 ^ 20) in
    if ltb maximum_rows default_rows
    then refused default_rows_above_maximum
    else if ltb maximum_bytes default_bytes
    then refused default_bytes_above_maximum
    else created (record {
      managed = managed;
      policy = policy_or_default opts.policy;
      source_resolver = opts.source_resolver;
      name = if str_eq opts.name "" then "dbstore-mcp" else opts.name;
      version = if str_eq opts.version "" then version else opts.version;
      default_max_rows = default_rows;
      maximum_max_rows = maximum_rows;
      default_max_bytes = default_bytes;
      maximum_max_bytes = maximum_bytes;
    })

abbrev pub resolves : Option Resolver → Bool
resolves none = false
resolves (some _) = true

unfoldable pub new : Option BuildInfo → Options → NewResult
new build opts = elim opts.store [
  | none ↦ refused store_required
  | some manages ↦
      if opts.enable_management
      then (if manages
          then with_limits opts true (implementation_version build)
          else refused not_a_manager)
      else if resolves opts.source_resolver
      then refused resolver_without_management
      else with_limits opts false (implementation_version build)
]

abbrev pub reading_tools : List String
reading_tools =
    "db_list_sources" ∷ "db_ping" ∷ "db_list_tables" ∷ "db_describe_table" ∷ "db_query" ∷ []

unfoldable pub add_tools : Server → List String
add_tools s =
    reading_tools
    ++ ((if s.managed then "db_remove_source" ∷ [] else [])
        ++ (if s.managed && resolves s.source_resolver then "db_register_source" ∷ [] else []))

-- The limits of a server: positive, and the defaults within the maxima.
pub record HasLimits (s : Server) : Type 0 where
  pub rows_positive : 0 < s.default_max_rows
  pub rows_within : s.default_max_rows ≤ s.maximum_max_rows
  pub bytes_positive : 0 < s.default_max_bytes
  pub bytes_within : s.default_max_bytes ≤ s.maximum_max_bytes

positive_or-pos : (x : ℤ) (d : ℕ) → 0 < d → 0 < positive_or x d
positive_or-pos (pos zero) d h = h
positive_or-pos (pos (suc n)) d h = omega arith
positive_or-pos (negsuc n) d h = h

with_limits-HasLimits :
    (opts : Options) (managed : Bool) (version : String) {s : Server}
    → with_limits opts managed version ≡ created s
    → HasLimits s × (s.managed ≡ managed) × (s.source_resolver ≡ opts.source_resolver)
unfolding with_limits
with_limits-HasLimits opts managed version h = ground (
  arith,
  positive_or-pos opts.default_max_rows 100,
  positive_or-pos opts.default_max_bytes (256 * 2 ^ 10),
)

-- Every server that `New` returns has sound limits, offers the five reading tools, offers
-- `db_remove_source` exactly if management is enabled, and `db_register_source` exactly if a resolver is
-- given, which `New` accepts with management only.
pub new-HasLimits :
    (build : Option BuildInfo) (opts : Options) (s : Server)
    → new build opts ≡ created s
    → HasLimits s
      × (add_tools s
          ≡ reading_tools
            ++ ((if opts.enable_management then "db_remove_source" ∷ [] else [])
                ++ (if resolves opts.source_resolver then "db_register_source" ∷ [] else [])))
unfolding new add_tools
new-HasLimits build opts s h = ground (
  arith,
  with_limits-HasLimits opts true (implementation_version build) {s = s},
  with_limits-HasLimits opts false (implementation_version build) {s = s},
)
