-- ===== src/Gen/Implementation/Laws.antt =====
-- What cmd/dbstore-gen/implementation.go finds missing.
use dbstore.Common.{
  ◌≡◌, refl, ◌↔◌, ◌∙◌, true, String, str_eq, eq_iff, List, [], ◌∷◌, if◌then◌else◌, arith, All,
  IsSorted, occurrences, sort_by-IsSorted, occurrences-sort_by,
}
use dbstore.Gen.Config.{member}
use dbstore.Gen.View.{MethodView}
use dbstore.Gen.Implementation.{itself, missing_methods, method_names, missing_method_names}

-- Every method is there.
abbrev pub AreImplemented : List String → List MethodView → Type 0
AreImplemented have want = All (λ m. member m.name have ≡ true) want

pub missing_methods-AreImplemented :
    (want : List MethodView) (have : List String)
    → (missing_methods want have ≡ []) ↔ AreImplemented have want
unfolding missing_methods
missing_methods-AreImplemented [] have = (λ h. tt, λ h. refl)
missing_methods-AreImplemented (m ∷ ms) have =
    ground (arith, missing_methods-AreImplemented ms have)

member_same :
    (j k : String) (have : List String) → str_eq j k ≡ true → member j have ≡ member k have
member_same j k [] h = refl
member_same j k (i ∷ is) h =
    ground (arith, eq_iff j k, eq_iff i j, eq_iff i k, member_same j k is h)

occurrences-missing_methods :
    (name : String) (want : List MethodView) (have : List String)
    → occurrences itself name (method_names (missing_methods want have))
      ≡ (if member name have then 0 else occurrences itself name (method_names want))
unfolding missing_methods method_names
occurrences-missing_methods name [] have = ground arith
occurrences-missing_methods name (m ∷ ms) have =
    ground (arith, member_same m.name name have, occurrences-missing_methods name ms have)

-- The names of the missing methods are in order, and they are just the wanted names that the implementation
-- does not have, each as often as it is wanted.
missing_method_names-IsSorted :
    (want : List MethodView) (have : List String)
    → IsSorted itself (missing_method_names want have)
      × ((name : String)
          → occurrences itself name (missing_method_names want have)
            ≡ (if member name have then 0 else occurrences itself name (method_names want)))
unfolding missing_method_names
missing_method_names-IsSorted want have = (
  sort_by-IsSorted itself (method_names (missing_methods want have)),
  λ name.
      occurrences-sort_by itself name (method_names (missing_methods want have))
      ∙ occurrences-missing_methods name want have,
)
