-- ===== src/Gen/Files/Again.antt =====
-- Writes of cmd/dbstore-gen that are done once more.
use dbstore.Common.{
  ◌≡◌, ◌≢◌, refl, sym, ap, ◌∙◌, Bool, true, false, String, str_eq, eq_iff, none, some, List, [],
  ◌∷◌, lookup, insert, if◌then◌else◌, if_true, if_false, arith, Bool-cases, inl, inr, All,
}
use dbstore.Gen.Errors.{Result, ok, err}
use dbstore.Gen.Files.{
  Files, Os, Outcome, ◌>>>◌, write_file, write_rendered, write_if_missing, if_missing, each,
}
use dbstore.Gen.Files.There.{IsThere}

insert_same : (path t : String) (fs : Files) → lookup path fs ≡ some t → insert path t fs ≡ fs
insert_same path t [] held = cc
insert_same path t ((p, s) ∷ fs) held = elim (Bool-cases (str_eq p path)) [
  | inl same ↦
      let key : path ≡ p = sym ((eq_iff p path).0 same) in
      let value : t ≡ s = ground (arith, held, same) in
      if_true ((path, t) ∷ fs) ((p, s) ∷ insert path t fs) same
      ∙ ap (λ k. (k, t) ∷ fs) key
      ∙ ap (λ v. (p, v) ∷ fs) value
  | inr other ↦
      if_false ((path, t) ∷ fs) ((p, s) ∷ insert path t fs) other
      ∙ ap (λ rest. (p, s) ∷ rest) (insert_same path t fs (ground (arith, held, other)))
]

-- A step that does not fail, of those that fail in one case.
works :
    {b : Bool} (failing working : Outcome)
    → (if b then failing else working).1 ≡ none
    → failing.1 ≢ none
    → b ≡ false
works {b = true} failing working done fails = absurd (fails done)
works {b = false} failing working done fails = refl

write_file-again :
    (os : Os) (path t : String) (fs gs : Files)
    → (write_file os path t fs).1 ≡ none
    → lookup path gs ≡ some t
    → write_file os path t gs ≡ (gs, none)
unfolding write_file
write_file-again os path t fs gs done held =
    let ready : os.write_fails path ≡ false = works _ _ done (λ h. cc) in
    if_false _ _ ready ∙ ap (λ hs. (hs, none)) (insert_same path t gs held)

pub write_rendered-again :
    (os : Os) (path : String) (r : Result String) (fs gs : Files)
    → (write_rendered os path r fs).1 ≡ none
    → ((t : String) → r ≡ ok t → lookup path gs ≡ some t)
    → write_rendered os path r gs ≡ (gs, none)
unfolding write_rendered
write_rendered-again os path (err e) fs gs done held = cc
write_rendered-again os path (ok t) fs gs done held =
    write_file-again os path t fs gs done (held t refl)

-- Can the file's place be looked at?
pub write_if_missing-stat :
    (os : Os) (path : String) (r : Result String) (fs : Files)
    → (write_if_missing os path r fs).1 ≡ none
    → os.stat_fails path ≡ false
unfolding write_if_missing
write_if_missing-stat os path r fs done = works _ _ done (λ h. cc)

pub write_if_missing-again :
    (os : Os) (path : String) (r : Result String) (gs : Files)
    → os.stat_fails path ≡ false
    → IsThere path gs
    → write_if_missing os path r gs ≡ (gs, none)
unfolding write_if_missing
write_if_missing-again os path r gs seen (t, held) =
    if_false _ _ seen ∙ ap (if_missing os path r gs) held

pub each-again :
    {A : Type 0} (f : A → Files → Outcome) (xs : List A) (gs : Files)
    → All (λ x. f x gs ≡ (gs, none)) xs
    → each f xs gs ≡ (gs, none)
unfolding each
each-again f [] gs h = refl
each-again f (x ∷ xs) gs (first, rest) = ap (λ o. o >>> each f xs) first ∙ each-again f xs gs rest

pub after-again :
    (o : Outcome) (next : Files → Outcome) (gs : Files)
    → o ≡ (gs, none)
    → next gs ≡ (gs, none)
    → (o >>> next) ≡ (gs, none)
after-again o next gs first second = ap (λ p. p >>> next) first ∙ second
