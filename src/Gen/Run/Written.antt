-- ===== src/Gen/Run/Written.antt =====
-- What the parts of a run of cmd/dbstore-gen that do not fail leave.
use dbstore.Common.{
  ◌≡◌, sym, ap, subst, ◌∙◌, ◌⊎◌, true, String, none, List, if_true, if_false, All, All-weaken,
  Bool-cases, inl, inr,
}
use dbstore.Gen.Config.{member}
use dbstore.Gen.View.{BackendView}
use dbstore.Gen.Plan.{Target, stub_path}
use dbstore.Gen.Files.{Files, Os, Outcome, ◌>>>◌, write_if_missing, each}
use dbstore.Gen.Files.There.{
  IsThere, Grows, write_rendered-Grows, write_if_missing-Grows, write_rendered-IsWritten,
  write_if_missing-IsThere, after-none, each-Grows, each-All,
}
use dbstore.Gen.Run.{
  Renderers, suite_path, fixture_path, registry_path, write_suite, write_fixture, write_registry,
  write_tests, write_stub,
}

-- The files of the tests.
abbrev pub AreTested : Target → Files → Type 0
AreTested t fs =
    IsThere (suite_path t) fs
    × IsThere (registry_path t) fs
    × All (λ b. IsThere (fixture_path t b) fs) t.view.backends

-- The backend was implemented before, or has a file where its stub goes.
abbrev pub HasStub : Target → List String → BackendView → Files → Type 0
HasStub t implemented b fs = (member b.name implemented ≡ true) ⊎ IsThere (stub_path t b) fs

pub AreTested-Grows : (t : Target) (fs gs : Files) → Grows fs gs → AreTested t fs → AreTested t gs
AreTested-Grows t fs gs grows (suite, registry, fixtures) = (
  grows (suite_path t) suite,
  grows (registry_path t) registry,
  All-weaken _ (λ b. IsThere (fixture_path t b) gs) t.view.backends (λ b. grows (fixture_path t b))
      fixtures,
)

write_fixture-Grows :
    (os : Os) (render : Renderers) (t : Target) (b : BackendView) (fs : Files)
    → Grows fs (write_fixture os render t b fs).0
unfolding write_fixture
write_fixture-Grows os render t b fs =
    write_if_missing-Grows os (fixture_path t b) (render.fixture_stub t.view b) fs

write_fixture-IsThere :
    (os : Os) (render : Renderers) (t : Target) (b : BackendView) (fs : Files)
    → (write_fixture os render t b fs).1 ≡ none
    → IsThere (fixture_path t b) (write_fixture os render t b fs).0
unfolding write_fixture
write_fixture-IsThere os render t b fs =
    write_if_missing-IsThere os (fixture_path t b) (render.fixture_stub t.view b) fs

pub write_stub-Grows :
    (os : Os) (render : Renderers) (t : Target) (implemented : List String) (b : BackendView)
    (fs : Files)
    → Grows fs (write_stub os render t implemented b fs).0
unfolding write_stub
write_stub-Grows os render t implemented b fs = elim (Bool-cases (member b.name implemented)) [
  | inl there ↦ rw there (λ p held. held)
  | inr absent ↦
      rw absent (write_if_missing-Grows os (stub_path t b) (render.backend_stub t.view b) fs)
]

write_stub-HasStub :
    (os : Os) (render : Renderers) (t : Target) (implemented : List String) (b : BackendView)
    (fs : Files)
    → (write_stub os render t implemented b fs).1 ≡ none
    → HasStub t implemented b (write_stub os render t implemented b fs).0
unfolding write_stub
write_stub-HasStub os render t implemented b fs done =
    elim (Bool-cases (member b.name implemented)) [
      | inl there ↦ inl there
      | inr absent ↦
          let write = write_if_missing os (stub_path t b) (render.backend_stub t.view b) fs in
          let same = if_false (fs, none) write absent in
          inr (
            subst (λ (o : Outcome). IsThere (stub_path t b) o.0) (sym same)
              (write_if_missing-IsThere os (stub_path t b) (render.backend_stub t.view b) fs
                (ap (λ (o : Outcome). o.1) (sym same) ∙ done)))
    ]

HasStub-Grows :
    (t : Target) (implemented : List String) (b : BackendView) (fs gs : Files)
    → Grows fs gs
    → HasStub t implemented b fs
    → HasStub t implemented b gs
HasStub-Grows t implemented b fs gs grows (inl there) = inl there
HasStub-Grows t implemented b fs gs grows (inr there) = inr (grows (stub_path t b) there)

pub write_stubs-HaveStubs :
    (os : Os) (render : Renderers) (t : Target) (implemented : List String) (fs : Files)
    → (each (write_stub os render t implemented) t.view.backends fs).1 ≡ none
    → All
        (λ b.
          HasStub t implemented b (each (write_stub os render t implemented) t.view.backends fs).0)
        t.view.backends
write_stubs-HaveStubs os render t implemented fs =
    each-All (HasStub t implemented) (write_stub os render t implemented) t.view.backends fs
      (write_stub-HasStub os render t implemented)
      (λ b c gs. HasStub-Grows t implemented b gs _ (write_stub-Grows os render t implemented c gs))

test_files : Os → Renderers → Target → Files → Outcome
test_files os render t fs =
    write_suite os render t fs
    >>> each (write_fixture os render t) t.view.backends
    >>> write_registry os render t

test_files-AreTested :
    (os : Os) (render : Renderers) (t : Target) (fs : Files)
    → (test_files os render t fs).1 ≡ none
    → AreTested t (test_files os render t fs).0
unfolding test_files write_suite write_registry
test_files-AreTested os render t fs done =
    let suite = write_suite os render t fs in
    let fixtures = each (write_fixture os render t) t.view.backends in
    let (written, last, same) = after-none (suite >>> fixtures) (write_registry os render t) done in
    let (first, middle, before) = after-none suite fixtures written in
    let suite_there : IsThere (suite_path t) suite.0 =
      write_if_missing-IsThere os (suite_path t) (render.compliance_suite t.view) fs first in
    let grows : Grows (suite >>> fixtures).0 (test_files os render t fs).0 =
      subst (Grows (suite >>> fixtures).0) (sym same) (
        write_rendered-Grows os (registry_path t) (render.compliance_registry t.view)
          (suite >>> fixtures).0) in
    let registry =
      write_rendered-IsWritten os (registry_path t) (render.compliance_registry t.view)
        (suite >>> fixtures).0 last in
    let fixtures_there : All (λ b. IsThere (fixture_path t b) (fixtures suite.0).0)
        t.view.backends =
      each-All (λ b. IsThere (fixture_path t b)) (write_fixture os render t) t.view.backends suite.0
        (write_fixture-IsThere os render t)
        (λ b c gs. write_fixture-Grows os render t c gs (fixture_path t b)) middle in
    (
      grows (suite_path t) (
          subst (IsThere (suite_path t)) (sym before) (
            each-Grows (write_fixture os render t) t.view.backends suite.0
              (write_fixture-Grows os render t) (suite_path t) suite_there)),
      subst (IsThere (registry_path t)) (sym same) (registry.0, registry.2),
      All-weaken _ (λ b. IsThere (fixture_path t b) (test_files os render t fs).0) t.view.backends
          (λ b. grows (fixture_path t b))
          (subst (λ gs. All (λ b. IsThere (fixture_path t b) gs) t.view.backends) (sym before)
            fixtures_there),
    )

pub write_tests-AreTested :
    (os : Os) (render : Renderers) (t : Target) (fs : Files)
    → t.test ≡ true
    → (write_tests os render t fs).1 ≡ none
    → AreTested t (write_tests os render t fs).0
unfolding write_tests test_files
write_tests-AreTested os render t fs on done =
    let same : write_tests os render t fs ≡ test_files os render t fs =
      if_true (test_files os render t fs) (fs, none) on in
    subst (λ (o : Outcome). AreTested t o.0) (sym same)
      (test_files-AreTested os render t fs (ap (λ (o : Outcome). o.1) (sym same) ∙ done))
