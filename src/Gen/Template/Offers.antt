-- ===== src/Gen/Template/Offers.antt =====
-- The methods that cmd/dbstore-gen offers for an implementation that lacks them, and those of its scaffold.
use text.Mathlib.TextLemmas.{append_assoc, append-nil, nil-append}
use dbstore.Common.{
  ◌<>◌, ◌≡◌, ◌≢◌, refl, sym, ap, ◌∙◌, String, List, [], ◌∷◌, ◌++◌, Bool-cases, inl, inr,
}
use dbstore.Gen.Parser.{Param}
use dbstore.Gen.View.{MethodView, BackendView, GenView, declared_params}
use dbstore.Gen.Implementation.{stub_of, more_stubs, render_missing_method_stubs}
use dbstore.Gen.Template.{concat, each_text}
use dbstore.Gen.Template.Stubs.{stub_param, stub_method, stub_head, backend_stub_text}

params-declared :
    (v : GenView) (k : BackendView) (m : MethodView) (ps : List Param)
    → each_text (stub_param v k m) ps ≡ declared_params ps
unfolding each_text stub_param concat declared_params
params-declared v k m [] = refl
params-declared v k m (p ∷ ps) = elim (Bool-cases p.variadic) [
  | inl on ↦ simp (append_assoc, append-nil, on, params-declared v k m ps)
  | inr off ↦ simp (append_assoc, append-nil, off, params-declared v k m ps)
]

stub_method-stub_of :
    (v : GenView) (k : BackendView) (m : MethodView)
    → stub_method v k m ≡ "\n" <> (stub_of k m <> "\n")
unfolding stub_method concat stub_of
stub_method-stub_of v k m = rw (params-declared v k m m.params) (simp append_assoc)

two_lines : (t : String) → "\n\n" <> t ≡ "\n" <> ("\n" <> t)
two_lines t = append_assoc "\n" "\n" t

methods-offered :
    (v : GenView) (k : BackendView) (m : MethodView) (ms : List MethodView)
    → each_text (stub_method v k) (m ∷ ms)
      ≡ "\n" <> (render_missing_method_stubs k (m ∷ ms) <> "\n")
unfolding each_text more_stubs render_missing_method_stubs
methods-offered v k m [] = simp (stub_method-stub_of v k m, append_assoc, append-nil)
methods-offered v k m (n ∷ ms) =
    simp (stub_method-stub_of v k m, methods-offered v k n ms, append_assoc, two_lines)

concat-append : (head tail : List String) → concat (head ++ tail) ≡ concat head <> concat tail
unfolding concat
concat-append [] tail = sym (nil-append (concat tail))
concat-append (l ∷ head) tail = rw (concat-append head tail) (sym (append_assoc l (concat head) _))

ends-offered :
    (v : GenView) (k : BackendView) (ms : List MethodView)
    → ms ≢ []
    → concat (each_text (stub_method v k) ms ∷ "\n" ∷ [])
      ≡ "\n" <> (render_missing_method_stubs k ms <> "\n\n")
unfolding concat
ends-offered v k [] some_method = absurd (some_method refl)
ends-offered v k (m ∷ ms) some_method = simp (methods-offered v k m ms, append_assoc, append-nil)

-- The scaffold of a backend for an interface with methods, before it is formatted, is its head up to the
-- constructor, followed by the methods that the generator offers for an implementation that has none of them,
-- letter by letter, between one line break and two.
pub scaffold-offered :
    (v : GenView) (k : BackendView)
    → v.methods ≢ []
    → backend_stub_text v k
      ≡ concat (stub_head v k) <> ("\n" <> (render_missing_method_stubs k v.methods <> "\n\n"))
unfolding backend_stub_text
scaffold-offered v k some_method =
    concat-append (stub_head v k) _
    ∙ ap (λ t. concat (stub_head v k) <> t) (ends-offered v k v.methods some_method)
