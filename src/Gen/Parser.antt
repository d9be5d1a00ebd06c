-- ===== src/Gen/Parser.antt =====
-- cmd/dbstore-gen/parser.go. What go/parser and go/packages find in the source is an argument; a type is
-- the pieces that `types.TypeString` makes of it.
pub mod Kept
use dbstore.Common.{
  ◌<>◌, ℕ, zero, suc, ◌+◌, Bool, true, false, String, str_eq, Option, none, some, List, [], ◌∷◌,
  ◌++◌, length, lookup, insert, if◌then◌else◌, decimal, sort_by, ◌&&◌,
}
use dbstore.Gen.Config.{member}
use dbstore.Gen.Alias.{Used, unique_import_alias}
use dbstore.Gen.Errors.{
  GenError, no_parameters, first_not_context, single_not_error, second_not_error,
  results_unsupported, endless, interface_undeclared, tooling, Result, ok, err, ◌>>=◌,
}

-- A declaration of a file: types, each with whether it is an interface; or something else.
pub data Decl : Type 0 where
  type_decl : List (String × Bool) → Decl
  other_decl : Decl

interfaces_of : List (String × Bool) → List String
interfaces_of [] = []
interfaces_of ((name, is_interface) ∷ specs) =
    let rest = interfaces_of specs in if is_interface then name ∷ rest else rest

unfoldable pub interface_names : List Decl → List String
unfolding interfaces_of
interface_names [] = []
interface_names (type_decl specs ∷ decls) = interfaces_of specs ++ interface_names decls
interface_names (other_decl ∷ decls) = interface_names decls

pub record Package : Type 0 where
  pub path : String
  pub name : String

-- A piece of a type's text: a name has its package, unless that is the interface's own, or the name is a
-- builtin.
pub data Piece : Type 0 where
  text : String → Piece
  named : Option Package → String → Piece

pub data GoType : Type 0 where
  slice : GoType → GoType
  plain : List Piece → GoType

-- The two maps of `parseInterface`: from paths to aliases, and back.
pub record Aliases : Type 0 where
  pub imports : List (String × String)
  pub used : Used

abbrev pub dbstore_path : String
dbstore_path = "github.com/loykin/dbstore"

abbrev pub reserved : Used
reserved = ("context", "context") ∷ ("dbstore", dbstore_path) ∷ []

abbrev assigned :
    String → List (String × String) → Option (String × Used) → Result (String × Aliases)
assigned path imports none = err endless
assigned path imports (some (alias, used)) =
    ok (alias, record { imports = insert path alias imports; used = used })

-- The alias of an import: the one that it has, or a new one.
unfoldable pub alias_for : String → String → Aliases → Result (String × Aliases)
alias_for name path a = elim (lookup path a.imports) [
  | some alias ↦ ok (alias, a)
  | none ↦ assigned path a.imports (unique_import_alias name path a.used)
]

-- `qualifier`, with the dot that `types.TypeString` puts after it, if it is not empty.
unfoldable pub qualify : Option Package → Aliases → Result (String × Aliases)
unfolding alias_for
qualify none a = ok ("", a)
qualify (some p) a = alias_for p.name p.path a >>= λ (r : String × Aliases).
    ok ((if str_eq r.0 "" then "" else r.0 <> "."), r.1)

unfoldable pub pieces_string : List Piece → Aliases → Result (String × Aliases)
unfolding qualify
pieces_string [] a = ok ("", a)
pieces_string (text t ∷ ps) a = pieces_string ps a >>= λ (r : String × Aliases). ok (t <> r.0, r.1)
pieces_string (named p n ∷ ps) a = qualify p a >>= λ (q : String × Aliases).
    pieces_string ps q.1 >>= λ (r : String × Aliases). ok (q.0 <> (n <> r.0), r.1)

-- `types.TypeString`
unfoldable pub type_string : GoType → Aliases → Result (String × Aliases)
unfolding pieces_string
type_string (slice t) a = type_string t a >>= λ (r : String × Aliases). ok ("[]" <> r.0, r.1)
type_string (plain ps) a = pieces_string ps a

pub record Signature : Type 0 where
  pub params : List (String × GoType)
  pub variadic : Bool
  pub results : List GoType

pub record Param : Type 0 where
  pub name : String
  pub type : String
  pub variadic : Bool

pub record Method : Type 0 where
  pub name : String
  pub params : List Param
  pub has_value : Bool
  pub value_type : String

abbrev is_last : List (String × GoType) → Bool
is_last [] = true
is_last (_ ∷ _) = false

abbrev named_or : ℕ → String → String
named_or i name = if str_eq name "" then "arg" <> decimal i else name

-- The last parameter of a variadic function is a slice; of another type `Elem` would panic.
abbrev elem_of : Bool → GoType → Result GoType
elem_of false t = ok t
elem_of true (slice t) = ok t
elem_of true (plain ps) = err (tooling 0)

-- The loop over the parameters after the context.
unfoldable pub parse_params :
    ℕ → Bool → List (String × GoType) → Aliases → Result (List Param × Aliases)
unfolding type_string
parse_params i variadic [] a = ok ([], a)
parse_params i variadic ((name, t) ∷ ps) a = elem_of (variadic && is_last ps) t >>= λ (e : GoType).
    type_string e a >>= λ (r : String × Aliases).
    parse_params (suc i) variadic ps r.1 >>= λ (q : List Param × Aliases).
    ok (record { name = named_or i name; type = r.0; variadic = variadic && is_last ps } ∷ q.0, q.1)

-- The type of a value, if there is one, and the maps then.
unfoldable pub parse_results : List GoType → Aliases → Result (Option String × Aliases)
unfolding type_string
parse_results (t ∷ []) a = type_string t a >>= λ (r : String × Aliases).
    if str_eq r.0 "error" then ok (none, r.1) else err (single_not_error r.0)
parse_results (v ∷ t ∷ []) a = type_string t a >>= λ (r : String × Aliases).
    if str_eq r.0 "error"
    then (type_string v r.1 >>= λ (q : String × Aliases). ok (some q.0, q.1))
    else err (second_not_error r.0)
parse_results results a = err (results_unsupported (length results))

abbrev method_of : String → List Param → Option String → Method
method_of name params none = record {
  name = name;
  params = params;
  has_value = false;
  value_type = "";
}
method_of name params (some v) = record {
  name = name;
  params = params;
  has_value = true;
  value_type = v;
}

parse_after_context :
    String → Bool → List (String × GoType) → List GoType → Aliases → Result (Method × Aliases)
unfolding parse_params parse_results
parse_after_context name variadic ps results a =
    parse_params 1 variadic ps a >>= λ (q : List Param × Aliases).
    parse_results results q.1 >>= λ (r : Option String × Aliases). ok (method_of name q.0 r.0, r.1)

parse_parameters :
    String → Bool → List GoType → List (String × GoType) → Aliases → Result (Method × Aliases)
unfolding parse_after_context type_string
parse_parameters name variadic results [] a = err no_parameters
parse_parameters name variadic results ((_, t) ∷ ps) a =
    type_string t a >>= λ (r : String × Aliases).
    if str_eq r.0 "context.Context"
    then parse_after_context name variadic ps results r.1
    else err (first_not_context r.0)

unfoldable pub parse_method : String → Signature → Aliases → Result (Method × Aliases)
unfolding parse_parameters
parse_method name sig a = parse_parameters name sig.variadic sig.results sig.params a

unfoldable pub parse_methods : List (String × Signature) → Aliases → Result (List Method × Aliases)
unfolding parse_method
parse_methods [] a = ok ([], a)
parse_methods ((name, sig) ∷ ms) a = parse_method name sig a >>= λ (m : Method × Aliases).
    parse_methods ms m.1 >>= λ (r : List Method × Aliases). ok (m.0 ∷ r.0, r.1)

-- The package that was loaded, with the methods of the interface.
pub record Loaded : Type 0 where
  pub package_name : String
  pub methods : List (String × Signature)

pub record Interface : Type 0 where
  pub name : String
  pub package_name : String
  pub methods : List Method
  pub imports : List (String × String)

abbrev method_name : String × Signature → String
method_name m = m.0

abbrev interface_of : String → Loaded → List Method × Aliases → Interface
interface_of name l r = record {
  name = name;
  package_name = l.package_name;
  methods = r.0;
  imports = r.1.imports;
}

-- `parseInterface`, with the file's declarations and what loading the package and looking the interface up
-- gives.
unfoldable pub parse_interface : String → Result (List Decl) → Result Loaded → Result Interface
unfolding interface_names parse_methods
parse_interface name parsed loaded = parsed >>= λ (decls : List Decl).
    if member name (interface_names decls)
    then (loaded >>= λ (l : Loaded).
        parse_methods (sort_by method_name l.methods) (record { imports = []; used = reserved })
        >>= λ (r : List Method × Aliases). ok (interface_of name l r))
    else err (interface_undeclared name (interface_names decls))
