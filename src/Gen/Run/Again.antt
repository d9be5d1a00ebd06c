-- ===== src/Gen/Run/Again.antt =====
-- A run of cmd/dbstore-gen that is repeated.
use dbstore.Common.{
  ◌≡◌, refl, sym, ap, subst, ◌∙◌, true, false, String, eq_iff, none, some, List, [], ◌∷◌, lookup,
  if_true, arith, All, All-weaken,
}
use dbstore.Gen.Config.{member}
use dbstore.Gen.View.{BackendView}
use dbstore.Gen.Plan.{Flags, Tools, Target, target, preflight, stub_path}
use dbstore.Gen.Plan.Ready.{IsReadyAs, check_backend-IsReadyAs}
use dbstore.Gen.Files.{Files, Os, Outcome, ◌>>>◌, write_if_missing, each}
use dbstore.Gen.Files.There.{write_rendered-IsWritten, after-none}
use dbstore.Gen.Files.Again.{write_rendered-again, each-again, after-again}
use dbstore.Gen.Errors.{Result, ok, err}
use dbstore.Gen.Run.{
  Renderers, out_path, write_gen, write_tests, write_stub, write_all, write_checked, write_target,
  run,
}
use dbstore.Gen.Files.Kept.{Keeps, each-Keeps}
use dbstore.Gen.Run.Kept.{registries, registry-registries, write_tests-Keeps, write_stub-Keeps}
use dbstore.Gen.Run.Settled.{tests-again, one_text, tests-Settled}

names_of : List BackendView → List String
names_of [] = []
names_of (b ∷ bs) = b.name ∷ names_of bs

-- Where every backend is implemented, the check gives all their names.
preflight-names :
    (tools : Tools) (os : Os) (fs : Files) (t : Target) (bs : List BackendView)
    → All (λ b. IsReadyAs tools os fs t b true) bs
    → preflight tools os fs t bs ≡ ok (names_of bs)
unfolding preflight names_of
preflight-names tools os fs t [] h = refl
preflight-names tools os fs t (b ∷ bs) (ready, rest) =
    let checked = (check_backend-IsReadyAs tools os fs t b true).1 ready in
    let passed = preflight-names tools os fs t bs rest in rw (checked, passed) refl

member-names_of : (bs : List BackendView) → All (λ b. member b.name (names_of bs) ≡ true) bs
unfolding names_of
member-names_of [] = tt
member-names_of (b ∷ bs) = (
  ground (arith, eq_iff b.name b.name),
  All-weaken (λ c. member c.name (names_of bs) ≡ true)
      (λ c. member c.name (b.name ∷ names_of bs) ≡ true) bs (λ c h. ground (arith, h))
      (member-names_of bs),
)

-- No stub is written for a backend that is implemented.
stubs-again :
    (os : Os) (render : Renderers) (t : Target) (gs : Files)
    → each (write_stub os render t (names_of t.view.backends)) t.view.backends gs ≡ (gs, none)
unfolding write_stub
stubs-again os render t gs =
    each-again (write_stub os render t (names_of t.view.backends)) t.view.backends gs (
      All-weaken (λ b. member b.name (names_of t.view.backends) ≡ true) _ t.view.backends
        (λ b there.
          if_true (gs, none) (write_if_missing os (stub_path t b) (render.backend_stub t.view b) gs)
            there)
        (member-names_of t.view.backends))

pair : (o : Outcome) (gs : Files) → o.1 ≡ none → o.0 ≡ gs → o ≡ (gs, none)
pair (fs, e) gs done same = ap (λ d. (fs, d)) done ∙ ap (λ hs. (hs, none)) same

write_all-again :
    (os : Os) (render : Renderers) (flags : Flags) (t : Target) (implemented : List String)
    (fs gs : Files)
    → member (out_path flags t) (registries t) ≡ false
    → write_all os render flags t implemented fs ≡ (gs, none)
    → write_all os render flags t (names_of t.view.backends) gs ≡ (gs, none)
unfolding write_all write_gen
write_all-again os render flags t implemented fs gs other whole =
    let gen = write_gen os render flags t fs in
    let tests = write_tests os render t in
    let stubs = each (write_stub os render t implemented) t.view.backends in
    let out = out_path flags t in
    let (written, last, same) =
      after-none (gen >>> tests) stubs (ap (λ (o : Outcome). o.1) whole) in
    let (first, middle, before) = after-none gen tests written in
    let hs = (gen >>> tests).0 in
    let stays : Keeps [] hs gs = subst (Keeps [] hs) (sym same ∙ ap (λ (o : Outcome). o.0) whole) (
      each-Keeps [] (write_stub os render t implemented) t.view.backends hs
        (λ b ks. write_stub-Keeps [] os render t implemented b ks)) in
    let tested : tests gen.0 ≡ (hs, none) = pair (tests gen.0) hs middle (sym before) in
    let code = write_rendered-IsWritten os out (render.gen_file t.view) fs first in
    let kept : lookup out hs ≡ some code.0 =
      subst (λ (o : Outcome). lookup out o.0 ≡ some code.0) tested
        (write_tests-Keeps (registries t) os render t gen.0 (registry-registries t) out code.0 other
          code.2) in
    after-again (write_gen os render flags t gs >>> tests)
      (each (write_stub os render t (names_of t.view.backends)) t.view.backends) gs
      (after-again (write_gen os render flags t gs) tests gs
        (write_rendered-again os out (render.gen_file t.view) fs gs first
          (one_text out (render.gen_file t.view) gs (code.0, code.1, stays out code.0 refl kept)))
        (tests-again os render t gs (tests-Settled os render t gen.0 hs gs stays tested)))
      (stubs-again os render t gs)

checked-again :
    (os : Os) (render : Renderers) (flags : Flags) (t : Target) (fs gs : Files)
    (checked : Result (List String))
    → member (out_path flags t) (registries t) ≡ false
    → write_checked os render flags t fs checked ≡ (gs, none)
    → write_all os render flags t (names_of t.view.backends) gs ≡ (gs, none)
checked-again os render flags t fs gs (err e) other whole =
    let failed : some e ≡ none = ap (λ (o : Outcome). o.1) whole in absurd (cc)
checked-again os render flags t fs gs (ok implemented) other whole =
    write_all-again os render flags t implemented fs gs other whole

-- A run that was successful changes nothing when it is repeated on the files that it has left, the stubs
-- that it may have written among them. That holds where on these files the flags give the same target as
-- before and every backend is found implemented, with the methods of the interface, and where the generated
-- code does not go where the registry does. Then the second run is successful too and leaves all files as
-- they are.
pub run-again :
    (tools : Files → Tools) (os : Os) (render : Renderers) (flags : Flags) (fs gs : Files)
    (t : Target)
    → target (tools fs) flags ≡ ok t
    → target (tools gs) flags ≡ ok t
    → All (λ b. IsReadyAs (tools gs) os gs t b true) t.view.backends
    → member (out_path flags t) (registries t) ≡ false
    → run tools os render flags fs ≡ (gs, none)
    → run tools os render flags gs ≡ (gs, none)
unfolding run
run-again tools os render flags fs gs t found still ready other whole =
    let first = ap (write_target (tools fs) os render flags fs) found in
    let again = checked-again os render flags t fs gs _ other (sym first ∙ whole) in
    ap (write_target (tools gs) os render flags gs) still
    ∙ ap (write_checked os render flags t gs)
        (preflight-names (tools gs) os gs t t.view.backends ready)
    ∙ again
