-- ===== src/Mcp/Command.antt =====
-- cmd/dbstore-mcp/main.go: the options that the command makes from its flags and the environment. What the
-- environment has, and what json makes of a text, is an argument.
use Prim.Native.Char.{code}
use dbstore.Common.{
  ◌<>◌, ℕ, ◌*◌, ◌^◌, leb, ◌↔◌, ◌==◌, ◌≡◌, ap, ◌∙◌, ℤ, pos, Bool, true, not, ◌&&◌, ◌||◌, String,
  str_eq, Option, none, some, List, [], ◌∷◌, ◌++◌, if◌then◌else◌, if_true, arith,
}
use dbstore.Store.Config.{SourceConfig, default_pool_config}
use dbstore.Mcp.Policy.{capability_policy}
use dbstore.Mcp.Operation.{query, register_source, remove_source}
use dbstore.Mcp.Server.{
  implementation_version, Resolver, Options, Server, BuildInfo, NewResult, created, refused,
  OptionsError, new, with_limits, add_tools, reading_tools,
}

pub record Environment : Type 0 where
  pub lookup_env : String → Option String
  pub decode : String → Option SourceConfig
  -- `strings.ToUpper`
  pub upper : String → String

pub record Flags : Type 0 where
  pub source : String
  pub driver : String
  pub max_concurrency : ℤ
  pub allow_query : Bool
  pub allow_manage : Bool

-- A character of `[A-Za-z0-9_]`.
abbrev is_word : ℕ → Bool
is_word c =
    leb b'A' c && leb c b'Z'
    || (leb b'a' c && leb c b'z' || (leb b'0' c && leb c b'9' || c == b'_'))

abbrev are_words : String → Bool
are_words String.[] = true
are_words (String.◌∷◌ c s) = is_word (code c) && are_words s

-- `configRefPattern.MatchString`
unfoldable pub matches : String → Bool
matches ref = not (str_eq ref "") && are_words ref

abbrev with_driver : Option SourceConfig → Option SourceConfig
with_driver none = none
with_driver (some cfg) = if str_eq cfg.driver "" then none else some cfg

abbrev decoded : Environment → Option String → Option SourceConfig
decoded env none = none
decoded env (some value) = with_driver (env.decode value)

-- `ResolveSource`, without its errors.
unfoldable pub resolve_source : Environment → Resolver
unfolding matches
resolve_source env ref =
    if matches ref
    then decoded env (env.lookup_env ("DBSTORE_MCP_SOURCE_" <> env.upper ref))
    else none

abbrev initial_config : Flags → String → SourceConfig
initial_config flags dsn = record {
  driver = flags.driver;
  dsn = dsn;
  pool_config = record default_pool_config { max_concurrency = flags.max_concurrency };
}

abbrev named_source : Flags → Option String → Option (String × SourceConfig)
named_source flags none = none
named_source flags (some dsn) =
    if str_eq dsn "" then none else some (flags.source, initial_config flags dsn)

-- The source that is opened first, if the environment has a DSN for it.
unfoldable pub initial_source : Environment → Flags → Option (String × SourceConfig)
initial_source env flags = named_source flags (env.lookup_env "DBSTORE_MCP_DSN")

-- The adapter for SQL manages its sources.
unfoldable pub options : Environment → Flags → Options
options env flags = record {
  store = some true;
  enable_management = flags.allow_manage;
  policy = some (capability_policy flags.allow_query flags.allow_manage);
  source_resolver = if flags.allow_manage then some (resolve_source env) else none;
  name = "";
  version = "";
  default_max_rows = pos 0;
  maximum_max_rows = pos 0;
  default_max_bytes = pos 0;
  maximum_max_bytes = pos 0;
}

pub data Started : Type 0 where
  serves : Server → Started
  not_opened : String → Started
  not_created : OptionsError → Started

abbrev of_result : NewResult → Started
of_result (created s) = serves s
of_result (refused e) = not_created e

abbrev after_open :
    Option BuildInfo → Environment → Flags → Option (String × SourceConfig) → Bool → Started
after_open build env flags none opens = of_result (new build (options env flags))
after_open build env flags (some (name, cfg)) opens =
    if opens then of_result (new build (options env flags)) else not_opened name

-- `main` up to the call that serves, with whether the initial source can be opened.
unfoldable pub start :
    Option BuildInfo → Environment → Flags → (String × SourceConfig → Bool) → Started
unfolding initial_source options
start build env flags opens =
    after_open build env flags (initial_source env flags)
      (elim (initial_source env flags) [ none ↦ true | some s ↦ opens s ])

-- The tools of the command.
abbrev pub command_tools : Bool → List String
command_tools allow_manage =
    reading_tools ++ (if allow_manage then "db_remove_source" ∷ "db_register_source" ∷ [] else [])

-- The server of the command.
abbrev pub command_server : Option BuildInfo → Environment → Flags → Server
command_server build env flags = record {
  managed = flags.allow_manage;
  policy = capability_policy flags.allow_query flags.allow_manage;
  source_resolver = if flags.allow_manage then some (resolve_source env) else none;
  name = "dbstore-mcp";
  version = implementation_version build;
  default_max_rows = 100;
  maximum_max_rows = 1000;
  default_max_bytes = 256 * 2 ^ 10;
  maximum_max_bytes = 4 * 2 ^ 20;
}

new-command_server :
    (build : Option BuildInfo) (env : Environment) (flags : Flags)
    → new build (options env flags) ≡ created (command_server build env flags)
unfolding new options with_limits
new-command_server build env flags = ground arith

after_open-serves :
    (build : Option BuildInfo) (env : Environment) (flags : Flags)
    (initial : Option (String × SourceConfig)) (b : Bool)
    → b ≡ true
    → after_open build env flags initial b ≡ serves (command_server build env flags)
after_open-serves build env flags none b opened = ap of_result (new-command_server build env flags)
after_open-serves build env flags (some (name, cfg)) b opened =
    if_true _ _ opened ∙ ap of_result (new-command_server build env flags)

tools_of :
    (build : Option BuildInfo) (env : Environment) (flags : Flags)
    → add_tools (command_server build env flags) ≡ command_tools flags.allow_manage
unfolding add_tools
tools_of build env flags = ground arith

-- Does the initial source open, if there is one?
abbrev pub opens_initial : Environment → Flags → (String × SourceConfig → Bool) → Bool
opens_initial env flags opens = elim (initial_source env flags) [ none ↦ true | some s ↦ opens s ]

-- Unless the initial source cannot be opened, the command serves: `New` accepts the options that it makes of
-- any flags. The tools that change which sources there are, are offered exactly with the flag
-- `allow-manage`. A query is authorised exactly with `allow-query`, and such a change exactly with
-- `allow-manage`.
pub start-serves :
    (build : Option BuildInfo) (env : Environment) (flags : Flags)
    (opens : String × SourceConfig → Bool)
    → opens_initial env flags opens ≡ true
    → (s : Server) × (start build env flags opens ≡ serves s)
      × (add_tools s ≡ command_tools flags.allow_manage)
      × ((source : String) → (s.policy query source ≡ none) ↔ (flags.allow_query ≡ true))
      × ((source : String) → (s.policy register_source source ≡ none) ↔ (flags.allow_manage ≡ true))
      × ((source : String) → (s.policy remove_source source ≡ none) ↔ (flags.allow_manage ≡ true))
unfolding start capability_policy
start-serves build env flags opens opened = (
  command_server build env flags,
  after_open-serves build env flags (initial_source env flags) _ opened,
  tools_of build env flags,
  λ source. ground arith,
  λ source. ground arith,
  λ source. ground arith,
)
