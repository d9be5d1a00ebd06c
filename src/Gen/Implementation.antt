-- ===== src/Gen/Implementation.antt =====
-- cmd/dbstore-gen/implementation.go. What reading the directory and parsing its files gives is an argument.
pub mod Laws
use dbstore.Common.{
  has_suffix, ◌<>◌, ◌≡◌, ◌≢◌, refl, ◌↔◌, Bool, true, false, not, String, str_eq, Option, none, some,
  List, [], ◌∷◌, ◌++◌, if◌then◌else◌, ◌||◌, sort_by,
}
use dbstore.Gen.Config.{member}
use dbstore.Gen.Parser.{Param}
use dbstore.Gen.View.{MethodView, BackendView, declared_params}
use dbstore.Gen.Errors.{Result, ok, err, ◌>>=◌}

-- The expressions that `receiverTypeName` tells apart.
pub data Expr : Type 0 where
  ident : String → Expr
  star index index_list : Expr → Expr
  other : Expr

unfoldable pub receiver_type_name : Expr → String
receiver_type_name (ident name) = name
receiver_type_name (star x) = receiver_type_name x
receiver_type_name (index x) = receiver_type_name x
receiver_type_name (index_list x) = receiver_type_name x
receiver_type_name other = ""

-- A declaration of a file: a function with its receivers, none for a plain function; or something else.
pub data FileDecl : Type 0 where
  func : String → List Expr → FileDecl
  not_func : FileDecl

pub record Entry : Type 0 where
  pub name : String
  pub is_dir : Bool
  -- what parsing the file gives
  pub parsed : Result (List FileDecl)

-- The methods that the declarations have for the receiver.
unfoldable pub methods_in : String → List FileDecl → List String
unfolding receiver_type_name
methods_in receiver [] = []
methods_in receiver (not_func ∷ ds) = methods_in receiver ds
methods_in receiver (func name [] ∷ ds) = methods_in receiver ds
methods_in receiver (func name (x ∷ xs) ∷ ds) =
    let rest = methods_in receiver ds in
    if str_eq (receiver_type_name x) receiver then name ∷ rest else rest

unfoldable pub is_skipped : Entry → Bool
unfolding has_suffix
is_skipped e = e.is_dir || (not (has_suffix e.name ".go") || has_suffix e.name "_test.go")

unfoldable pub inspect_entries : String → List Entry → Result (List String)
unfolding methods_in is_skipped
inspect_entries receiver [] = ok []
inspect_entries receiver (e ∷ es) =
    let rest = inspect_entries receiver es in
    if is_skipped e
    then rest
    else (e.parsed >>= λ (ds : List FileDecl).
        rest >>= λ (ms : List String). ok (methods_in receiver ds ++ ms))

pub record Inspected : Type 0 where
  pub exists : Bool
  pub methods : List String

abbrev inspected : List String → Inspected
inspected [] = record { exists = false; methods = [] }
inspected (m ∷ ms) = record { exists = true; methods = m ∷ ms }

-- A method that was found and the flag `exists` go together.
unfoldable pub inspect_backend : Result (List Entry) → String → Result Inspected
unfolding inspect_entries
inspect_backend entries receiver = entries >>= λ (es : List Entry).
    inspect_entries receiver es >>= λ (ms : List String). ok (inspected ms)

unfoldable pub missing_methods : List MethodView → List String → List MethodView
missing_methods [] have = []
missing_methods (m ∷ ms) have =
    let rest = missing_methods ms have in if member m.name have then rest else m ∷ rest

pub method_names : List MethodView → List String
method_names [] = []
method_names (m ∷ ms) = m.name ∷ method_names ms

abbrev pub itself : String → String
itself name = name

unfoldable pub missing_method_names : List MethodView → List String → List String
unfolding missing_methods method_names
missing_method_names want have = sort_by itself (method_names (missing_methods want have))

unfoldable pub stub_of : BackendView → MethodView → String
unfolding declared_params
stub_of b m =
    "func ("
    <> b.backend_struct_name
    <> ") "
    <> m.name
    <> "(ctx context.Context, h "
    <> b.pkg_name
    <> ".Handle"
    <> declared_params m.params
    <> ") "
    <> m.return_sig
    <> " {\n\tpanic(\"TODO: implement\")\n}"

-- The stubs after the first, each after an empty line.
unfoldable pub more_stubs : BackendView → List MethodView → String
unfolding stub_of
more_stubs b [] = ""
more_stubs b (m ∷ ms) = "\n\n" <> (stub_of b m <> more_stubs b ms)

unfoldable pub render_missing_method_stubs : BackendView → List MethodView → String
unfolding more_stubs stub_of
render_missing_method_stubs b [] = ""
render_missing_method_stubs b (m ∷ ms) = stub_of b m <> more_stubs b ms
