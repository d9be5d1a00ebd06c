-- ===== src/Gen/Plan/Ready.antt =====
-- When `run` of cmd/dbstore-gen/main.go goes on to write.
use dbstore.Common.{
  ◌≡◌, refl, sym, ap, subst, ◌∙◌, ◌↔◌, Bool, true, false, String, none, List, [], ◌∷◌, lookup,
  if◌then◌else◌, arith, All, if_true, if_false, Bool-cases, inl, inr,
}
use dbstore.Gen.View.{MethodView, BackendView}
use dbstore.Gen.Implementation.{Inspected, inspect_backend, missing_methods}
use dbstore.Gen.Implementation.Laws.{AreImplemented, missing_methods-AreImplemented}
use dbstore.Gen.Files.{Files, Os}
use dbstore.Gen.Errors.{ok, ◌>>=◌, bind-ok}
use dbstore.Gen.Plan.{
  Tools, Target, stub_path, free_stub, complete, judge, check_backend, preflight,
}

-- What was found is a complete implementation; or it is none, and nothing is where the stub goes.
abbrev pub Allows : Os → Files → Target → BackendView → Inspected → Bool → Type 0
Allows os fs t b x true = (x.exists ≡ true) × AreImplemented x.methods t.view.methods
Allows os fs t b x false =
    (x.exists ≡ false)
    × (os.stat_fails (stub_path t b) ≡ false)
    × (lookup (stub_path t b) fs ≡ none)

abbrev pub IsReadyAs : Tools → Os → Files → Target → BackendView → Bool → Type 0
IsReadyAs tools os fs t b v =
    (x : Inspected) × (inspect_backend (tools.read_dir t.dir) b.backend_struct_name ≡ ok x)
    × Allows os fs t b x v

complete-ok :
    (b : BackendView) (ms : List MethodView) (v : Bool)
    → complete b ms ≡ ok v
    → (ms ≡ []) × (v ≡ true)
complete-ok b [] v h = (refl, cc)
complete-ok b (m ∷ ms) v h = cc

free_stub-ok :
    (os : Os) (fs : Files) (t : Target) (b : BackendView) (v : Bool)
    → free_stub os fs t b ≡ ok v
    → (os.stat_fails (stub_path t b) ≡ false) × (lookup (stub_path t b) fs ≡ none) × (v ≡ false)
free_stub-ok os fs t b v h = ground (arith, h)

Allows-true :
    (os : Os) (fs : Files) (t : Target) (b : BackendView) (x : Inspected) (v : Bool)
    → x.exists ≡ true
    → (missing_methods t.view.methods x.methods ≡ []) × (v ≡ true)
    → Allows os fs t b x v
Allows-true os fs t b x v there h =
    subst (Allows os fs t b x) (sym h.1)
      (there, (missing_methods-AreImplemented t.view.methods x.methods).0 h.0)

Allows-false :
    (os : Os) (fs : Files) (t : Target) (b : BackendView) (x : Inspected) (v : Bool)
    → x.exists ≡ false
    → (os.stat_fails (stub_path t b) ≡ false) × (lookup (stub_path t b) fs ≡ none) × (v ≡ false)
    → Allows os fs t b x v
Allows-false os fs t b x v absent (works, free, same) =
    subst (Allows os fs t b x) (sym same) (absent, works, free)

judge-Allows :
    (os : Os) (fs : Files) (t : Target) (b : BackendView) (x : Inspected) (v : Bool)
    → judge os fs t b x ≡ ok v
    → Allows os fs t b x v
judge-Allows os fs t b x v h = elim (Bool-cases x.exists) [
  | inl there ↦ Allows-true os fs t b x v there (
      complete-ok b (missing_methods t.view.methods x.methods) v (
        sym (
          if_true (complete b (missing_methods t.view.methods x.methods)) (free_stub os fs t b)
            there)
        ∙ h))
  | inr absent ↦ Allows-false os fs t b x v absent (
      free_stub-ok os fs t b v (
        sym (
          if_false (complete b (missing_methods t.view.methods x.methods)) (free_stub os fs t b)
            absent)
        ∙ h))
]

Allows-judge :
    (os : Os) (fs : Files) (t : Target) (b : BackendView) (x : Inspected) (v : Bool)
    → Allows os fs t b x v
    → judge os fs t b x ≡ ok v
Allows-judge os fs t b x true (there, implemented) =
    if_true _ _ there
    ∙ ap (complete b) ((missing_methods-AreImplemented t.view.methods x.methods).1 implemented)
Allows-judge os fs t b x false (absent, works, free) = if_false _ _ absent ∙ rw works (rw free refl)

pub check_backend-IsReadyAs :
    (tools : Tools) (os : Os) (fs : Files) (t : Target) (b : BackendView) (v : Bool)
    → (check_backend tools os fs t b ≡ ok v) ↔ IsReadyAs tools os fs t b v
unfolding check_backend
check_backend-IsReadyAs tools os fs t b v = (
  λ h.
      let (x, found, judged) =
        bind-ok (inspect_backend (tools.read_dir t.dir) b.backend_struct_name) _ v h in
      (x, found, judge-Allows os fs t b x v judged),
  λ (x, found, allowed). ap (λ r. r >>= judge os fs t b) found ∙ Allows-judge os fs t b x v allowed,
)

-- Some flag goes with the backend.
abbrev pub IsReady : Tools → Os → Files → Target → BackendView → Type 0
IsReady tools os fs t b = (v : Bool) × IsReadyAs tools os fs t b v

abbrev pub Passes : Tools → Os → Files → Target → List BackendView → Type 0
Passes tools os fs t bs = (names : List String) × (preflight tools os fs t bs ≡ ok names)

-- The check before writing passes exactly when every backend is either implemented with all the methods of
-- the interface, or not at all, while nothing is where its stub would go, as far as could be read.
pub preflight-IsReady :
    (tools : Tools) (os : Os) (fs : Files) (t : Target) (bs : List BackendView)
    → Passes tools os fs t bs ↔ All (IsReady tools os fs t) bs
unfolding preflight
preflight-IsReady tools os fs t [] = (λ h. tt, λ h. ([], refl))
preflight-IsReady tools os fs t (b ∷ bs) = (
  λ (names, h).
      let (v, checked, later) = bind-ok (check_backend tools os fs t b) _ names h in
      let (more, passed, _) = bind-ok (preflight tools os fs t bs) _ names later in
      (
        (v, (check_backend-IsReadyAs tools os fs t b v).0 checked),
        (preflight-IsReady tools os fs t bs).0 (more, passed),
      ),
  λ ((v, ready), others).
      let checked = (check_backend-IsReadyAs tools os fs t b v).1 ready in
      let (more, passed) = (preflight-IsReady tools os fs t bs).1 others in
      ((if v then b.name ∷ more else more), rw (checked, passed) refl),
)
