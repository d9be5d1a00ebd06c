-- ===== src/Gen/Template.antt =====
-- The text of the generated code, by the template `genFileTemplate` of cmd/dbstore-gen/template.go.
pub mod Stubs
pub mod Offers
use dbstore.Common.{◌<>◌, String, List, [], ◌∷◌, if◌then◌else◌}
use dbstore.Gen.View.{MethodView, BackendView, ImportView, GenView}

-- The lines of a template, and what `range` makes of a list.
unfoldable pub concat : List String → String
concat [] = ""
concat (line ∷ lines) = line <> concat lines

unfoldable pub each_text : {A : Type 0} → (A → String) → List A → String
each_text f [] = ""
each_text f (x ∷ xs) = f x <> each_text f xs

import_line : GenView → ImportView → String
unfolding concat each_text
import_line v i = concat (("\t" <> i.alias <> " \"" <> i.path <> "\"\n") ∷ [])

interface_method : GenView → MethodView → String
unfolding concat each_text
interface_method v m =
    concat (("\t" <> m.name <> "(" <> m.backend_params <> ") " <> m.return_sig <> "\n") ∷ [])

wrapper_method : GenView → MethodView → String
unfolding concat each_text
wrapper_method v m = concat (
    "\n"
    ∷ ("func (r *" <> v.wrapper_struct <> "[A]) " <> m.name <> "(" <> m.domain_params <> ") "
        <> m.return_sig <> " {\n")
    ∷ (if m.has_value
        then "\treturn dbstore.Call(ctx, r.src, func(ctx context.Context, a A) (" <> m.value_type
          <> ", error) {\n" <> "\t\treturn r.backend." <> m.name <> "(ctx, a"
          <> m.domain_args_prefixed <> ")\n" <> "\t})\n"
        else "\treturn dbstore.Exec(ctx, r.src, func(ctx context.Context, a A) error {\n"
          <> "\t\treturn r.backend." <> m.name <> "(ctx, a" <> m.domain_args_prefixed <> ")\n"
          <> "\t})\n")
    ∷ "}\n"
    ∷ [])

connect_factory : GenView → BackendView → String
unfolding concat each_text
connect_factory v b = concat (
    "\n"
    ∷ ("// var _ compile-time assertion: if " <> b.name <> "'s Backend stops implementing\n")
    ∷ ("// " <> v.base <> "RepoBackend (e.g. " <> v.interface_name <> " gained a method), this\n")
    ∷ "// line fails to compile instead of the gap going unnoticed.\n"
    ∷ ("var _ " <> v.base <> "RepoBackend[" <> b.pkg_name <> ".Handle] = " <> b.backend_struct_name
        <> "{}\n")
    ∷ "\n"
    ∷ ("// " <> b.connect_factory_name <> " opens \"" <> b.name
        <> "\" as the sole consumer of that\n")
    ∷ ("// source, wires it into a " <> b.backend_struct_name <> "-backed " <> v.interface_name
        <> ",\n")
    ∷ "// and returns the resulting Close. register installs whatever this backend's\n"
    ∷ "// Open needs (e.g. RegisterDefaultDrivers, or RegisterDriver with an\n"
    ∷ ("// app-specific implementation) — pass nil if " <> b.pkg_name <> ".New already\n")
    ∷ "// registers what Open needs.\n"
    ∷ "//\n"
    ∷ ("// Use this only when " <> v.interface_name <> " is the sole consumer of \"" <> b.name
        <> "\".\n")
    ∷ "// If a second repository needs the same source, open it explicitly with\n"
    ∷ ("// " <> b.pkg_name <> ".New and construct both repositories over the same\n")
    ∷ ("// " <> b.pkg_name <> ".Source instead — sharing one Source keeps them on the same\n")
    ∷ "// connection pool and per-source throttle instead of doubling both.\n"
    ∷ ("func " <> b.connect_factory_name <> "(register func(*" <> b.pkg_name
        <> ".Adapter), cfg dbstore.SourceConfig) (" <> v.interface_name <> ", func(), error) {\n")
    ∷ ("\tadapter := " <> b.pkg_name <> ".New()\n")
    ∷ "\tif register != nil {\n"
    ∷ "\t\tregister(adapter)\n"
    ∷ "\t}\n"
    ∷ ("\tif err := adapter.Open(\"" <> b.name <> "\", cfg); err != nil {\n")
    ∷ "\t\tadapter.Close()\n"
    ∷ "\t\treturn nil, nil, err\n"
    ∷ "\t}\n"
    ∷ ("\treturn " <> b.factory_name <> "(adapter.Source(\"" <> b.name
        <> "\")), adapter.Close, nil\n")
    ∷ "}\n"
    ∷ [])

unfoldable pub gen_file_text : GenView → String
unfolding concat each_text import_line interface_method wrapper_method connect_factory
gen_file_text v = concat (
    "// Code generated by dbstore-gen. DO NOT EDIT.\n"
    ∷ "\n"
    ∷ ("package " <> v.package_name <> "\n")
    ∷ "\n"
    ∷ "import (\n"
    ∷ "\t\"context\"\n"
    ∷ "\n"
    ∷ "\t\"github.com/loykin/dbstore\"\n"
    ∷ each_text (import_line v) v.imports
    ∷ ")\n"
    ∷ "\n"
    ∷ ("// " <> v.base <> "RepoBackend defines the per-backend query/protocol logic for\n")
    ∷ ("// " <> v.interface_name <> ". Implementations receive an adapter-specific Handle,\n")
    ∷ "// never the raw client.\n"
    ∷ ("type " <> v.base <> "RepoBackend[A any] interface {\n")
    ∷ each_text (interface_method v) v.methods
    ∷ "}\n"
    ∷ "\n"
    ∷ ("// " <> v.wrapper_struct <> " is the only implementation of " <> v.interface_name <> " —\n")
    ∷ "// generated once for this domain interface and reused for every backend by\n"
    ∷ "// parameterizing A. src is always a named field, never embedded: embedding\n"
    ∷ ("// would promote Runner[A].Run onto " <> v.wrapper_struct <> "[A] itself, leaking\n")
    ∷ ("// infra access past the " <> v.interface_name <> " contract.\n")
    ∷ ("type " <> v.wrapper_struct <> "[A any] struct {\n")
    ∷ ("\tbackend " <> v.base <> "RepoBackend[A]\n")
    ∷ "\tsrc     dbstore.Runner[A]\n"
    ∷ "}\n"
    ∷ "\n"
    ∷ ("// " <> v.constructor <> " combines backend-specific repository operations with a\n")
    ∷ ("// source-scoped Runner to produce a " <> v.interface_name <> ".\n")
    ∷ ("func " <> v.constructor <> "[A any](backend " <> v.base
        <> "RepoBackend[A], src dbstore.Runner[A]) " <> v.interface_name <> " {\n")
    ∷ ("\treturn &" <> v.wrapper_struct <> "[A]{backend: backend, src: src}\n")
    ∷ "}\n"
    ∷ "\n"
    ∷ each_text (wrapper_method v) v.methods
    ∷ "\n"
    ∷ each_text (connect_factory v) v.backends
    ∷ "\n"
    ∷ [])
