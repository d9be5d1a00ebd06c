-- ===== src/Gen/Run.antt =====
-- `run` of cmd/dbstore-gen/main.go. What rendering gives is an argument; what is printed is left out.
pub mod Kept
pub mod Written
pub mod Complete
pub mod Again
pub mod Settled
use dbstore.Common.{
  ◌<>◌, ◌≡◌, Bool, true, false, String, str_eq, Option, none, some, List, [], ◌∷◌, if◌then◌else◌,
}
use dbstore.Gen.Paths.{join}
use dbstore.Gen.Config.{member}
use dbstore.Gen.View.{BackendView, GenView}
use dbstore.Gen.Plan.{Flags, Tools, Target, target, preflight, stub_path}
use dbstore.Gen.Files.{Files, Os, Outcome, ◌>>>◌, write_rendered, write_if_missing, each}
use dbstore.Gen.Errors.{GenError, Result, ok, err}

-- The functions `render…` of cmd/dbstore-gen/generator.go.
pub record Renderers : Type 0 where
  pub gen_file : GenView → Result String
  pub compliance_suite : GenView → Result String
  pub fixture_stub : GenView → BackendView → Result String
  pub compliance_registry : GenView → Result String
  pub backend_stub : GenView → BackendView → Result String

unfoldable pub out_path : Flags → Target → String
out_path flags t = if str_eq flags.out "" then join t.dir (t.base <> "_gen.go") else flags.out

unfoldable pub suite_path : Target → String
suite_path t = join t.dir (t.base <> "_compliance_test.go")

unfoldable pub fixture_path : Target → BackendView → String
fixture_path t b = join t.dir (t.base <> ("_" <> (b.name <> "_test.go")))

unfoldable pub registry_path : Target → String
registry_path t = join t.dir (t.base <> "_compliance_gen_test.go")

write_suite : Os → Renderers → Target → Files → Outcome
write_suite os render t = write_if_missing os (suite_path t) (render.compliance_suite t.view)

write_fixture : Os → Renderers → Target → BackendView → Files → Outcome
write_fixture os render t b = write_if_missing os (fixture_path t b) (render.fixture_stub t.view b)

write_registry : Os → Renderers → Target → Files → Outcome
write_registry os render t = write_rendered os (registry_path t) (render.compliance_registry t.view)

unfoldable pub write_tests : Os → Renderers → Target → Files → Outcome
unfolding write_suite write_fixture write_registry
write_tests os render t fs =
    if t.test
    then write_suite os render t fs
      >>> each (write_fixture os render t) t.view.backends
      >>> write_registry os render t
    else (fs, none)

unfoldable pub write_stub : Os → Renderers → Target → List String → BackendView → Files → Outcome
write_stub os render t implemented b fs =
    if member b.name implemented
    then (fs, none)
    else write_if_missing os (stub_path t b) (render.backend_stub t.view b) fs

write_gen : Os → Renderers → Flags → Target → Files → Outcome
write_gen os render flags t = write_rendered os (out_path flags t) (render.gen_file t.view)

unfoldable pub write_all : Os → Renderers → Flags → Target → List String → Files → Outcome
unfolding write_gen write_tests write_stub
write_all os render flags t implemented fs =
    write_gen os render flags t fs
    >>> write_tests os render t
    >>> each (write_stub os render t implemented) t.view.backends

abbrev write_checked : Os → Renderers → Flags → Target → Files → Result (List String) → Outcome
write_checked os render flags t fs (err e) = (fs, some e)
write_checked os render flags t fs (ok implemented) = write_all os render flags t implemented fs

abbrev write_target : Tools → Os → Renderers → Flags → Files → Result Target → Outcome
write_target tools os render flags fs (err e) = (fs, some e)
write_target tools os render flags fs (ok t) =
    write_checked os render flags t fs (preflight tools os fs t t.view.backends)

-- The tools read the files as they are before anything is written.
unfoldable pub run : (Files → Tools) → Os → Renderers → Flags → Files → Outcome
unfolding write_all
run tools os render flags fs = write_target (tools fs) os render flags fs (target (tools fs) flags)
