-- ===== src/Gen/Template/Stubs.antt =====
-- The text of the files for the application and the tests, by the other templates of
-- cmd/dbstore-gen/template.go.
use dbstore.Common.{◌<>◌, String, List, [], ◌∷◌, ◌++◌, if◌then◌else◌}
use dbstore.Gen.Parser.{Param}
use dbstore.Gen.View.{MethodView, BackendView, ImportView, GenView}
use dbstore.Gen.Template.{concat, each_text}

unfoldable pub compliance_suite_text : GenView → String
unfolding concat each_text
compliance_suite_text v = concat (
    "// Compliance suite skeleton created by dbstore-gen.\n"
    ∷ "// This file is application-owned and is never overwritten. Write shared\n"
    ∷ ("// assertions below using only " <> v.interface_name <> " methods.\n")
    ∷ "\n"
    ∷ ("package " <> v.package_name <> "\n")
    ∷ "\n"
    ∷ "import (\n"
    ∷ "\t\"testing\"\n"
    ∷ ")\n"
    ∷ "\n"
    ∷ ("// " <> v.capabilities <> " declares optional guarantees specific to\n")
    ∷ ("// " <> v.interface_name <> ". Add fields only for behavior that some configured\n")
    ∷ "// backends can guarantee and others cannot.\n"
    ∷ ("type " <> v.capabilities <> " struct{}\n")
    ∷ "\n"
    ∷ ("// run" <> v.base <> "RepoComplianceSuite asserts the behavior every\n")
    ∷ ("// " <> v.interface_name <> " implementation must share. caps gates assertions not\n")
    ∷ "// every backend can honor (e.g. multi-op atomicity).\n"
    ∷ ("func run" <> v.base <> "RepoComplianceSuite(t *testing.T, newRepo func(t *testing.T) "
        <> v.interface_name <> ", caps " <> v.capabilities <> ") {\n")
    ∷ "\tt.Helper()\n"
    ∷ "\t_ = caps\n"
    ∷ ("\t// TODO: write assertions using only " <> v.interface_name <> " methods.\n")
    ∷ "}\n"
    ∷ [])

unfoldable pub fixture_stub_text : GenView → BackendView → String
unfolding concat each_text
fixture_stub_text v k = concat (
    ("// Fixture skeleton created by dbstore-gen for backend \"" <> k.name <> "\".\n")
    ∷ "// This file is application-owned and is never overwritten. Replace the panic\n"
    ∷ "// with backend setup and register cleanup with t.Cleanup.\n"
    ∷ "\n"
    ∷ ("package " <> v.package_name <> "\n")
    ∷ "\n"
    ∷ "import (\n"
    ∷ "\t\"testing\"\n"
    ∷ "\n"
    ∷ "\t\"github.com/loykin/dbstore/dbstoretest\"\n"
    ∷ ")\n"
    ∷ "\n"
    ∷ ("var " <> k.fixture_var_name <> " = dbstoretest.Fixture[" <> v.interface_name <> ", "
        <> v.capabilities <> "]{\n")
    ∷ ("\tName: \"" <> k.name <> "\",\n")
    ∷ ("\tNew: func(t *testing.T) " <> v.interface_name <> " {\n")
    ∷ "\t\tt.Helper()\n"
    ∷ ("\t\tpanic(\"TODO: construct " <> k.name <> " " <> v.interface_name <> "\")\n")
    ∷ "\t},\n"
    ∷ "}\n"
    ∷ [])

fixture_line : GenView → BackendView → String
unfolding concat each_text
fixture_line v b = concat (("\t\t" <> b.fixture_var_name <> ",\n") ∷ [])

unfoldable pub compliance_registry_text : GenView → String
unfolding concat each_text fixture_line
compliance_registry_text v = concat (
    "// Code generated by dbstore-gen. DO NOT EDIT.\n"
    ∷ "\n"
    ∷ ("package " <> v.package_name <> "\n")
    ∷ "\n"
    ∷ "import (\n"
    ∷ "\t\"testing\"\n"
    ∷ "\n"
    ∷ "\t\"github.com/loykin/dbstore/dbstoretest\"\n"
    ∷ ")\n"
    ∷ "\n"
    ∷ ("func Test" <> v.base <> "RepoCompliance(t *testing.T) {\n")
    ∷ ("\tdbstoretest.RunComplianceSuite(t, []dbstoretest.Fixture[" <> v.interface_name <> ", "
        <> v.capabilities <> "]{\n")
    ∷ each_text (fixture_line v) v.backends
    ∷ ("\t}, run" <> v.base <> "RepoComplianceSuite)\n")
    ∷ "}\n"
    ∷ [])

stub_import : GenView → BackendView → ImportView → String
unfolding concat each_text
stub_import v k i = concat (("\t" <> i.alias <> " \"" <> i.path <> "\"\n") ∷ [])

unfoldable pub stub_param : GenView → BackendView → MethodView → Param → String
unfolding concat each_text
stub_param v k m p =
    concat ((", " <> p.name <> " " <> (if p.variadic then "..." else "")) ∷ p.type ∷ [])

unfoldable pub stub_method : GenView → BackendView → MethodView → String
unfolding concat each_text stub_param
stub_method v k m = concat (
    "\n"
    ∷ ("func ("
        <> k.backend_struct_name
        <> ") "
        <> m.name
        <> "(ctx context.Context, h "
        <> k.pkg_name
        <> ".Handle"
        <> each_text (stub_param v k m) m.params)
    ∷ (") " <> m.return_sig <> " {\n")
    ∷ "\tpanic(\"TODO: implement\")\n"
    ∷ "}\n"
    ∷ [])

-- The lines of `backendStubTemplate` up to the methods.
unfoldable pub stub_head : GenView → BackendView → List String
unfolding concat each_text stub_import
stub_head v k =
    ("// Generated skeleton by dbstore-gen for backend \"" <> k.name <> "\" —\n")
    ∷ "// created once, never overwritten. Fill in the TODO bodies; the signatures\n"
    ∷ ("// already match " <> v.base <> "RepoBackend[" <> k.pkg_name <> ".Handle], so a\n")
    ∷ ("// future " <> v.interface_name <> " method addition shows up here as a compile\n")
    ∷ "// error (see the \"var _ ...\" assertion in the _gen.go file), not silently.\n"
    ∷ "\n"
    ∷ ("package " <> v.package_name <> "\n")
    ∷ "\n"
    ∷ "import (\n"
    ∷ "\t\"context\"\n"
    ∷ "\n"
    ∷ ("\t" <> k.pkg_name <> " \"" <> k.import_path <> "\"\n")
    ∷ each_text (stub_import v k) v.domain_imports
    ∷ "\n"
    ∷ ")\n"
    ∷ "\n"
    ∷ ("type " <> k.backend_struct_name <> " struct{}\n")
    ∷ "\n"
    ∷ ("// " <> k.factory_name <> " is the application-facing constructor for the\n")
    ∷ ("// " <> k.name <> " implementation. Customize this function when\n")
    ∷ ("// " <> k.backend_struct_name <> " needs additional dependencies.\n")
    ∷ ("func " <> k.factory_name <> "(source " <> k.pkg_name <> ".Source) " <> v.interface_name
        <> " {\n")
    ∷ ("\treturn " <> v.constructor <> "[" <> k.pkg_name <> ".Handle](" <> k.backend_struct_name
        <> "{}, source)\n")
    ∷ "}\n"
    ∷ "\n"
    ∷ []

unfoldable pub backend_stub_text : GenView → BackendView → String
unfolding concat each_text stub_method
backend_stub_text v k = concat (stub_head v k ++ each_text (stub_method v k) v.methods ∷ "\n" ∷ [])
