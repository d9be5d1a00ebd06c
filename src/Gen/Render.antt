-- ===== src/Gen/Render.antt =====
-- The functions `render…` of cmd/dbstore-gen/generator.go. What go/format makes of a text is an argument.
use dbstore.Common.{String}
use dbstore.Gen.Errors.{Result}
use dbstore.Gen.Run.{Renderers}
use dbstore.Gen.Template.{gen_file_text}
use dbstore.Gen.Template.Stubs.{
  compliance_suite_text, fixture_stub_text, compliance_registry_text, backend_stub_text,
}

unfoldable pub renderers : (String → Result String) → Renderers
renderers format = record {
  gen_file = λ view. format (gen_file_text view);
  compliance_suite = λ view. format (compliance_suite_text view);
  fixture_stub = λ view backend. format (fixture_stub_text view backend);
  compliance_registry = λ view. format (compliance_registry_text view);
  backend_stub = λ view backend. format (backend_stub_text view backend);
}
