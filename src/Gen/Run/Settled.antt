-- ===== src/Gen/Run/Settled.antt =====
-- The files of the tests of a run of cmd/dbstore-gen, when it is repeated.
use dbstore.Common.{
  ◌≡◌, refl, sym, ap, subst, ◌∙◌, true, false, String, none, some, List, [], ◌∷◌, lookup, if_true,
  if_false, All, Bool-cases, inl, inr,
}
use dbstore.Gen.View.{BackendView}
use dbstore.Gen.Plan.{Target}
use dbstore.Gen.Files.{Files, Os, Outcome, ◌>>>◌, each}
use dbstore.Gen.Files.There.{
  IsThere, Grows, IsWritten, write_rendered-IsWritten, after-none, each-All,
}
use dbstore.Gen.Files.Again.{
  write_rendered-again, write_if_missing-stat, write_if_missing-again, each-again, after-again,
}
use dbstore.Gen.Errors.{Result, ok}
use dbstore.Gen.Run.{
  Renderers, suite_path, fixture_path, registry_path, write_suite, write_fixture, write_registry,
  write_tests,
}
use dbstore.Gen.Files.Kept.{Keeps}
use dbstore.Gen.Run.Written.{AreTested, AreTested-Grows, write_tests-AreTested}

-- What is needed for the files of the tests to be left as they are.
pub record Settled (os : Os) (render : Renderers) (t : Target) (gs : Files) : Type 0 where
  suite : os.stat_fails (suite_path t) ≡ false
  fixtures : All (λ b. os.stat_fails (fixture_path t b) ≡ false) t.view.backends
  tested : AreTested t gs
  registry : write_registry os render t gs ≡ (gs, none)

fixtures-again :
    (os : Os) (render : Renderers) (t : Target) (gs : Files) (bs : List BackendView)
    → All (λ b. os.stat_fails (fixture_path t b) ≡ false) bs
    → All (λ b. IsThere (fixture_path t b) gs) bs
    → All (λ b. write_fixture os render t b gs ≡ (gs, none)) bs
unfolding write_fixture
fixtures-again os render t gs [] seen there = tt
fixtures-again os render t gs (b ∷ bs) (seen, more) (there, others) = (
  write_if_missing-again os (fixture_path t b) (render.fixture_stub t.view b) gs seen there,
  fixtures-again os render t gs bs more others,
)

pub tests-again :
    (os : Os) (render : Renderers) (t : Target) (gs : Files)
    → (t.test ≡ true → Settled os render t gs)
    → write_tests os render t gs ≡ (gs, none)
unfolding write_tests write_suite
tests-again os render t gs settled = elim (Bool-cases t.test) [
  | inr off ↦ if_false _ _ off
  | inl on ↦
      let s = settled on in
      if_true _ _ on
      ∙ after-again _ (write_registry os render t) gs
          (after-again (write_suite os render t gs) _ gs
            (write_if_missing-again os (suite_path t) (render.compliance_suite t.view) gs s.suite
              s.tested.0)
            (each-again (write_fixture os render t) t.view.backends gs
              (fixtures-again os render t gs t.view.backends s.fixtures s.tested.2)))
          s.registry
]

write_fixture-stat :
    (os : Os) (render : Renderers) (t : Target) (b : BackendView) (fs : Files)
    → (write_fixture os render t b fs).1 ≡ none
    → os.stat_fails (fixture_path t b) ≡ false
unfolding write_fixture
write_fixture-stat os render t b fs done =
    write_if_missing-stat os (fixture_path t b) (render.fixture_stub t.view b) fs done

pub one_text :
    (path : String) (r : Result String) (fs : Files)
    → IsWritten path r fs
    → (t : String) → r ≡ ok t
    → lookup path fs ≡ some t
one_text path r fs (s, rendered, held) t again = let same : s ≡ t = cc in held ∙ ap some same

IsWritten-Keeps :
    (path : String) (r : Result String) (hs gs : Files)
    → Keeps [] hs gs
    → IsWritten path r hs
    → IsWritten path r gs
IsWritten-Keeps path r hs gs stays (t, rendered, held) = (t, rendered, stays path t refl held)

Keeps-Grows : (hs gs : Files) → Keeps [] hs gs → Grows hs gs
Keeps-Grows hs gs stays path (t, held) = (t, stays path t refl held)

files-Settled :
    (os : Os) (render : Renderers) (t : Target) (fs hs gs : Files)
    → Keeps [] hs gs
    → AreTested t hs
    → (write_suite os render t fs
        >>> each (write_fixture os render t) t.view.backends
        >>> write_registry os render t)
      ≡ (hs, none)
    → Settled os render t gs
unfolding write_suite write_registry
files-Settled os render t fs hs gs stays tested whole =
    let suite = write_suite os render t fs in
    let fixtures = each (write_fixture os render t) t.view.backends in
    let (written, last, same) =
      after-none (suite >>> fixtures) (write_registry os render t)
        (ap (λ (o : Outcome). o.1) whole) in
    let (first, middle, before) = after-none suite fixtures written in
    let there =
      write_rendered-IsWritten os (registry_path t) (render.compliance_registry t.view)
        (suite >>> fixtures).0 last in
    let final : (write_registry os render t (suite >>> fixtures).0).0 ≡ hs =
      sym same ∙ ap (λ (o : Outcome). o.0) whole in
    record {
      suite = write_if_missing-stat os (suite_path t) (render.compliance_suite t.view) fs first;
      fixtures =
          each-All (λ b hs. os.stat_fails (fixture_path t b) ≡ false) (write_fixture os render t)
            t.view.backends suite.0 (write_fixture-stat os render t) (λ b c hs h. h) middle;
      tested = AreTested-Grows t hs gs (Keeps-Grows hs gs stays) tested;
      registry =
          write_rendered-again os (registry_path t) (render.compliance_registry t.view)
            (suite >>> fixtures).0 gs last
            (one_text (registry_path t) (render.compliance_registry t.view) gs (
              IsWritten-Keeps (registry_path t) (render.compliance_registry t.view) hs gs stays (
                subst (IsWritten (registry_path t) (render.compliance_registry t.view)) final
                  there)));
    }

pub tests-Settled :
    (os : Os) (render : Renderers) (t : Target) (fs hs gs : Files)
    → Keeps [] hs gs
    → write_tests os render t fs ≡ (hs, none)
    → t.test ≡ true
    → Settled os render t gs
unfolding write_tests
tests-Settled os render t fs hs gs stays whole on =
    let files =
      write_suite os render t fs
      >>> each (write_fixture os render t) t.view.backends
      >>> write_registry os render t in
    let tested =
      subst (AreTested t) (ap (λ (o : Outcome). o.0) whole)
        (write_tests-AreTested os render t fs on (ap (λ (o : Outcome). o.1) whole)) in
    files-Settled os render t fs hs gs stays tested (sym (if_true files (fs, none) on) ∙ whole)
