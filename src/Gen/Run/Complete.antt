-- ===== src/Gen/Run/Complete.antt =====
-- What a run of cmd/dbstore-gen that does not fail leaves.
use dbstore.Common.{
  ◌≡◌, refl, sym, subst, ◌⊎◌, true, false, String, none, List, All, Bool-cases, inl, inr,
}
use dbstore.Gen.Config.{member}
use dbstore.Gen.Plan.{Flags, Tools, Target, target, preflight}
use dbstore.Gen.Files.{Files, Os, ◌>>>◌, each}
use dbstore.Gen.Files.There.{Grows, IsWritten, write_rendered-IsWritten, after-none, each-Grows}
use dbstore.Gen.Files.Kept.{Keeps, after-Keeps, each-Keeps}
use dbstore.Gen.Errors.{Result, ok, err}
use dbstore.Gen.Run.{
  Renderers, out_path, write_gen, write_tests, write_stub, write_all, write_checked, write_target,
  run,
}
use dbstore.Gen.Run.Kept.{registries, registry-registries, write_tests-Keeps, write_stub-Keeps}
use dbstore.Gen.Run.Written.{
  AreTested, HasStub, AreTested-Grows, write_stub-Grows, write_stubs-HaveStubs,
  write_tests-AreTested,
}

-- What a run that does not fail has done, up to a list of the backends that were implemented.
pub record Completed (os : Os) (render : Renderers) (flags : Flags) (t : Target)
    (implemented : List String) (fs : Files) : Type 0 where
  -- the generated code is in its file, unless that is also the registry's
  pub code :
      (member (out_path flags t) (registries t) ≡ true)
      ⊎ IsWritten (out_path flags t) (render.gen_file t.view) fs
  pub tests : (t.test ≡ false) ⊎ AreTested t fs
  pub stubs : All (λ b. HasStub t implemented b fs) t.view.backends

write_all-Completed :
    (os : Os) (render : Renderers) (flags : Flags) (t : Target) (implemented : List String)
    (fs : Files)
    → (write_all os render flags t implemented fs).1 ≡ none
    → Completed os render flags t implemented (write_all os render flags t implemented fs).0
unfolding write_all write_gen
write_all-Completed os render flags t implemented fs done =
    let gen = write_gen os render flags t fs in
    let tests = write_tests os render t in
    let stubs = each (write_stub os render t implemented) t.view.backends in
    let (written, last, same) = after-none (gen >>> tests) stubs done in
    let (first, middle, before) = after-none gen tests written in
    let code = write_rendered-IsWritten os (out_path flags t) (render.gen_file t.view) fs first in
    let keeps : Keeps (registries t) gen.0 (gen >>> tests >>> stubs).0 =
      after-Keeps (registries t) gen.0 (gen >>> tests) stubs
        (subst (Keeps (registries t) gen.0) (sym before)
          (write_tests-Keeps (registries t) os render t gen.0 (registry-registries t)))
        (λ gs.
          each-Keeps (registries t) (write_stub os render t implemented) t.view.backends gs
            (λ b hs. write_stub-Keeps (registries t) os render t implemented b hs)) in
    let grows : Grows (gen >>> tests).0 (gen >>> tests >>> stubs).0 =
      subst (Grows (gen >>> tests).0) (sym same) (
        each-Grows (write_stub os render t implemented) t.view.backends (gen >>> tests).0
          (write_stub-Grows os render t implemented)) in
    record {
      code = elim (Bool-cases (member (out_path flags t) (registries t))) [
        | inl shared ↦ inl shared
        | inr other ↦ inr (code.0, code.1, keeps (out_path flags t) code.0 other code.2)
      ];
      tests = elim (Bool-cases t.test) [
        | inr off ↦ inl off
        | inl on ↦ inr (
            AreTested-Grows t (gen >>> tests).0 _ grows (
              subst (AreTested t) (sym before) (write_tests-AreTested os render t gen.0 on middle)))
      ];
      stubs =
          subst (λ gs. All (λ b. HasStub t implemented b gs) t.view.backends) (sym same)
            (write_stubs-HaveStubs os render t implemented (gen >>> tests).0 last);
    }

-- A run that has done what it is for.
abbrev pub HasGenerated : (Files → Tools) → Os → Renderers → Flags → Files → Files → Type 0
HasGenerated tools os render flags fs gs =
    (t : Target) × (target (tools fs) flags ≡ ok t)
    × ((implemented : List String) × (preflight (tools fs) os fs t t.view.backends ≡ ok implemented)
        × Completed os render flags t implemented gs)

checked-HasGenerated :
    (tools : Tools) (os : Os) (render : Renderers) (flags : Flags) (fs : Files) (t : Target)
    (checked : Result (List String))
    → (write_checked os render flags t fs checked).1 ≡ none
    → (implemented : List String) × (checked ≡ ok implemented)
      × Completed os render flags t implemented (write_checked os render flags t fs checked).0
checked-HasGenerated tools os render flags fs t (err e) done = cc
checked-HasGenerated tools os render flags fs t (ok implemented) done =
    (implemented, refl, write_all-Completed os render flags t implemented fs done)

target-HasGenerated :
    (tools : Tools) (os : Os) (render : Renderers) (flags : Flags) (fs : Files) (r : Result Target)
    → (write_target tools os render flags fs r).1 ≡ none
    → (t : Target) × (r ≡ ok t)
      × ((implemented : List String) × (preflight tools os fs t t.view.backends ≡ ok implemented)
          × Completed os render flags t implemented (write_target tools os render flags fs r).0)
target-HasGenerated tools os render flags fs (err e) done = cc
target-HasGenerated tools os render flags fs (ok t) done =
    (t, refl, checked-HasGenerated tools os render flags fs t _ done)

-- A run that does not fail has found its target and passed the check of the backends. After it the generated
-- code is in its file, unless the flags put that where the registry goes. In a run with tests the suite, the
-- registry and a fixture of each backend are there. Each backend was found implemented, or has a file where
-- its stub goes.
pub run-HasGenerated :
    (tools : Files → Tools) (os : Os) (render : Renderers) (flags : Flags) (fs : Files)
    → (run tools os render flags fs).1 ≡ none
    → HasGenerated tools os render flags fs (run tools os render flags fs).0
unfolding run
run-HasGenerated tools os render flags fs done =
    target-HasGenerated (tools fs) os render flags fs (target (tools fs) flags) done
