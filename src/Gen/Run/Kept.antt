-- ===== src/Gen/Run/Kept.antt =====
-- What a run of cmd/dbstore-gen does not change.
use dbstore.Common.{
  ◌≡◌, sym, ap, subst, ◌∙◌, true, false, String, eq_iff, none, some, List, [], ◌∷◌, lookup,
  if◌then◌else◌, arith, All, if_true, Bool-cases, inl, inr,
}
use dbstore.Gen.Config.{member}
use dbstore.Gen.View.{BackendView}
use dbstore.Gen.Plan.{Flags, Tools, Target, target, preflight, stub_path}
use dbstore.Gen.Plan.Ready.{IsReady, preflight-IsReady}
use dbstore.Gen.Files.{Files, Os, ◌>>>◌, each}
use dbstore.Gen.Files.Kept.{
  Keeps, write_rendered-Keeps, write_if_missing-Keeps, after-Keeps, each-Keeps,
}
use dbstore.Gen.Errors.{GenError, Result, ok, err, Result-cases}
use dbstore.Gen.Run.{
  Renderers, out_path, suite_path, fixture_path, registry_path, write_gen, write_suite,
  write_fixture, write_registry, write_tests, write_stub, write_all, write_checked, write_target,
  run,
}

-- The one file of a test run that is generated each time.
abbrev pub registries : Target → List String
registries t = if t.test then registry_path t ∷ [] else []

-- The files that a run may write anew.
abbrev pub generated : Flags → Result Target → List String
generated flags (err e) = []
generated flags (ok t) = out_path flags t ∷ registries t

same_member : (path : String) (rest : List String) → member path (path ∷ rest) ≡ true
same_member path rest = ground (arith, eq_iff path path)

later_member :
    (k path : String) (own : List String) → member k own ≡ true → member k (path ∷ own) ≡ true
later_member k path own h = ground (arith, h)

pub registry-registries :
    (t : Target) → t.test ≡ true → member (registry_path t) (registries t) ≡ true
registry-registries t on =
    subst (λ own. member (registry_path t) own ≡ true) (sym (if_true (registry_path t ∷ []) [] on))
      (same_member (registry_path t) [])

registry-member :
    (flags : Flags) (t : Target)
    → t.test ≡ true
    → member (registry_path t) (out_path flags t ∷ registries t) ≡ true
registry-member flags t on =
    later_member (registry_path t) (out_path flags t) (registries t) (registry-registries t on)

pub write_tests-Keeps :
    (own : List String) (os : Os) (render : Renderers) (t : Target) (fs : Files)
    → (t.test ≡ true → member (registry_path t) own ≡ true)
    → Keeps own fs (write_tests os render t fs).0
unfolding write_tests write_suite write_fixture write_registry
write_tests-Keeps own os render t fs owned = elim (Bool-cases t.test) [
  | inr off ↦ rw off (λ p s other held. held)
  | inl on ↦
      let fixtures = each (write_fixture os render t) t.view.backends in
      let suite = write_suite os render t fs in
      let all =
        after-Keeps own fs (suite >>> fixtures) (write_registry os render t)
          (after-Keeps own fs suite fixtures
            (write_if_missing-Keeps own os (suite_path t) (render.compliance_suite t.view) fs)
            (λ gs. each-Keeps own (write_fixture os render t) t.view.backends gs (λ b hs.
              write_if_missing-Keeps own os (fixture_path t b) (render.fixture_stub t.view b) hs)))
          (λ gs.
            write_rendered-Keeps own os (registry_path t) (render.compliance_registry t.view) gs
              (λ s held. owned on)) in
      subst (λ o. Keeps own fs o.0)
        (sym (if_true (suite >>> fixtures >>> write_registry os render t) (fs, none) on)) all
]

pub write_stub-Keeps :
    (own : List String) (os : Os) (render : Renderers) (t : Target) (implemented : List String)
    (b : BackendView) (fs : Files)
    → Keeps own fs (write_stub os render t implemented b fs).0
unfolding write_stub
write_stub-Keeps own os render t implemented b fs = elim (Bool-cases (member b.name implemented)) [
  | inl there ↦ rw there (λ p s other held. held)
  | inr absent ↦
      rw absent (write_if_missing-Keeps own os (stub_path t b) (render.backend_stub t.view b) fs)
]

write_all-Keeps :
    (os : Os) (render : Renderers) (flags : Flags) (t : Target) (implemented : List String)
    (fs : Files)
    → Keeps (out_path flags t ∷ registries t) fs (write_all os render flags t implemented fs).0
unfolding write_all write_gen
write_all-Keeps os render flags t implemented fs =
    let own = out_path flags t ∷ registries t in
    let stubs = each (write_stub os render t implemented) t.view.backends in
    let gen = write_gen os render flags t fs in
    after-Keeps own fs (gen >>> write_tests os render t) stubs
      (after-Keeps own fs gen (write_tests os render t)
        (write_rendered-Keeps own os (out_path flags t) (render.gen_file t.view) fs
          (λ s held. same_member (out_path flags t) (registries t)))
        (λ gs. write_tests-Keeps own os render t gs (registry-member flags t)))
      (λ gs.
        each-Keeps own (write_stub os render t implemented) t.view.backends gs
          (λ b hs. write_stub-Keeps own os render t implemented b hs))

checked-Keeps :
    (os : Os) (render : Renderers) (flags : Flags) (t : Target) (fs : Files)
    (checked : Result (List String))
    → Keeps (out_path flags t ∷ registries t) fs (write_checked os render flags t fs checked).0
checked-Keeps os render flags t fs (err e) = λ p s other held. held
checked-Keeps os render flags t fs (ok implemented) =
    write_all-Keeps os render flags t implemented fs

target-Keeps :
    (tools : Tools) (os : Os) (render : Renderers) (flags : Flags) (fs : Files) (r : Result Target)
    → Keeps (generated flags r) fs (write_target tools os render flags fs r).0
target-Keeps tools os render flags fs (err e) = λ p s other held. held
target-Keeps tools os render flags fs (ok t) = checked-Keeps os render flags t fs _

-- Whatever a run does, and wherever it fails, a file that was there has the same text after it, unless it is
-- the file of the generated code or, in a run with tests, that of the registry.
pub run-Keeps :
    (tools : Files → Tools) (os : Os) (render : Renderers) (flags : Flags) (fs : Files)
    (path t : String)
    → member path (generated flags (target (tools fs) flags)) ≡ false
    → lookup path fs ≡ some t
    → lookup path (run tools os render flags fs).0 ≡ some t
unfolding run
run-Keeps tools os render flags fs path t =
    target-Keeps (tools fs) os render flags fs (target (tools fs) flags) path t

checked_error :
    (tools : Tools) (os : Os) (render : Renderers) (flags : Flags) (fs : Files) (t : Target)
    → ¬ (All (IsReady tools os fs t) t.view.backends)
    → (e : GenError) × (write_checked os render flags t fs (preflight tools os fs t t.view.backends)
        ≡ (fs, some e))
checked_error tools os render flags fs t unready =
    elim (Result-cases (preflight tools os fs t t.view.backends)) [
      | inl (names, passed) ↦
          absurd (unready ((preflight-IsReady tools os fs t t.view.backends).0 (names, passed)))
      | inr (e, failed) ↦ (e, ap (write_checked os render flags t fs) failed)
    ]

-- A run for which some backend is not ready fails, and changes no file: one whose implementation lacks a
-- method, or whose stub would find a file in its place, or that cannot be inspected.
pub run-unready :
    (tools : Files → Tools) (os : Os) (render : Renderers) (flags : Flags) (fs : Files) (t : Target)
    → target (tools fs) flags ≡ ok t
    → ¬ (All (IsReady (tools fs) os fs t) t.view.backends)
    → (e : GenError) × (run tools os render flags fs ≡ (fs, some e))
unfolding run
run-unready tools os render flags fs t found unready =
    let (e, failed) = checked_error (tools fs) os render flags fs t unready in
    (e, ap (write_target (tools fs) os render flags fs) found ∙ failed)
