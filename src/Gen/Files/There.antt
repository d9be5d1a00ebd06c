-- ===== src/Gen/Files/There.antt =====
-- What a write of cmd/dbstore-gen that does not fail leaves.
use dbstore.Common.{
  ◌≡◌, refl, sym, ap, subst, ◌∙◌, String, str_eq, eq_iff, Option, none, some, List, [], ◌∷◌, lookup,
  insert, lookup-insert, if_true, if_false, arith, Bool-cases, Option-cases, inl, inr, All,
}
use dbstore.Gen.Errors.{stat_failed, write_failed, Result, ok, err}
use dbstore.Gen.Files.{
  Files, Os, Outcome, ◌>>>◌, put, write_file, write_rendered, write_if_missing, if_missing, each,
}

abbrev pub IsThere : String → Files → Type 0
IsThere path fs = (t : String) × (lookup path fs ≡ some t)

-- No file goes.
abbrev pub Grows : Files → Files → Type 0
Grows fs gs = (path : String) → IsThere path fs → IsThere path gs

Grows-insert : (path t : String) (fs : Files) → Grows fs (insert path t fs)
Grows-insert path t fs p (s, held) = elim (Bool-cases (str_eq path p)) [
  | inl same ↦ (t, lookup-insert path p t fs ∙ rw same refl)
  | inr differ ↦ (s, lookup-insert path p t fs ∙ rw differ held)
]

Grows-put : (path : String) (t : Option String) (fs : Files) → Grows fs (put path t fs)
Grows-put path none fs = λ p held. held
Grows-put path (some t) fs = Grows-insert path t fs

write_file-Grows : (os : Os) (path t : String) (fs : Files) → Grows fs (write_file os path t fs).0
unfolding write_file
write_file-Grows os path t fs = elim (Bool-cases (os.write_fails path)) [
  | inl fails ↦ rw fails (Grows-put path (os.part path t) fs)
  | inr works ↦ rw works (Grows-insert path t fs)
]

pub write_rendered-Grows :
    (os : Os) (path : String) (r : Result String) (fs : Files)
    → Grows fs (write_rendered os path r fs).0
unfolding write_rendered
write_rendered-Grows os path (err e) fs = λ p held. held
write_rendered-Grows os path (ok t) fs = write_file-Grows os path t fs

pub write_if_missing-Grows :
    (os : Os) (path : String) (r : Result String) (fs : Files)
    → Grows fs (write_if_missing os path r fs).0
unfolding write_if_missing
write_if_missing-Grows os path r fs = elim (Bool-cases (os.stat_fails path)) [
  | inl fails ↦ rw fails (λ p held. held)
  | inr works ↦ elim (Option-cases (lookup path fs)) [
    | inl free ↦ rw works (rw free (write_rendered-Grows os path r fs))
    | inr (t, there) ↦ rw works (rw there (λ p held. held))
  ]
]

pub after-Grows :
    (fs : Files) (o : Outcome) (next : Files → Outcome)
    → Grows fs o.0
    → ((gs : Files) → Grows gs (next gs).0)
    → Grows fs (o >>> next).0
after-Grows fs (gs, none) next k h = λ p held. h gs p (k p held)
after-Grows fs (gs, some e) next k h = k

pub each-Grows :
    {A : Type 0} (f : A → Files → Outcome) (xs : List A) (fs : Files)
    → ((x : A) (gs : Files) → Grows gs (f x gs).0)
    → Grows fs (each f xs fs).0
unfolding each
each-Grows f [] fs h = λ p held. held
each-Grows f (x ∷ xs) fs h =
    after-Grows fs (f x fs) (each f xs) (h x fs) (λ gs. each-Grows f xs gs h)

-- A chain that does not fail goes on from what its first link leaves.
pub after-none :
    (o : Outcome) (next : Files → Outcome)
    → (o >>> next).1 ≡ none
    → (o.1 ≡ none) × ((next o.0).1 ≡ none) × ((o >>> next).0 ≡ (next o.0).0)
after-none (gs, none) next h = (refl, h, refl)
after-none (gs, some e) next h = cc

-- What was rendered is in the file.
abbrev pub IsWritten : String → Result String → Files → Type 0
IsWritten path r fs = (t : String) × (r ≡ ok t) × (lookup path fs ≡ some t)

write_file-IsWritten :
    (os : Os) (path t : String) (fs : Files)
    → (write_file os path t fs).1 ≡ none
    → lookup path (write_file os path t fs).0 ≡ some t
unfolding write_file
write_file-IsWritten os path t fs done = elim (Bool-cases (os.write_fails path)) [
  | inl fails ↦
      let failed : some (write_failed path) ≡ none =
        ap (λ (o : Outcome). o.1)
          (sym (
            if_true (put path (os.part path t) fs, some (write_failed path))
              (insert path t fs, none) fails))
        ∙ done in
      cc
  | inr works ↦ rw works (lookup-insert path path t fs ∙ ground (arith, eq_iff path path))
]

pub write_rendered-IsWritten :
    (os : Os) (path : String) (r : Result String) (fs : Files)
    → (write_rendered os path r fs).1 ≡ none
    → IsWritten path r (write_rendered os path r fs).0
unfolding write_rendered
write_rendered-IsWritten os path (err e) fs done = cc
write_rendered-IsWritten os path (ok t) fs done = (t, refl, write_file-IsWritten os path t fs done)

if_missing-IsThere :
    (os : Os) (path : String) (r : Result String) (fs : Files) (there : Option String)
    → lookup path fs ≡ there
    → (if_missing os path r fs there).1 ≡ none
    → IsThere path (if_missing os path r fs there).0
if_missing-IsThere os path r fs (some t) held done = (t, held)
if_missing-IsThere os path r fs none held done =
    let (t, rendered, written) = write_rendered-IsWritten os path r fs done in (t, written)

pub write_if_missing-IsThere :
    (os : Os) (path : String) (r : Result String) (fs : Files)
    → (write_if_missing os path r fs).1 ≡ none
    → IsThere path (write_if_missing os path r fs).0
unfolding write_if_missing
write_if_missing-IsThere os path r fs done = elim (Bool-cases (os.stat_fails path)) [
  | inl fails ↦
      let failed : some (stat_failed path) ≡ none =
        ap (λ (o : Outcome). o.1)
          (sym (
            if_true (fs, some (stat_failed path)) (if_missing os path r fs (lookup path fs)) fails))
        ∙ done in
      cc
  | inr works ↦
      let same =
        if_false (fs, some (stat_failed path)) (if_missing os path r fs (lookup path fs)) works in
      subst (λ o. IsThere path o.0) (sym same)
        (if_missing-IsThere os path r fs (lookup path fs) refl (ap (λ o. o.1) (sym same) ∙ done))
]

after-lasts :
    (P : Files → Type 0) (o : Outcome) (next : Files → Outcome)
    → P o.0
    → ((gs : Files) → P gs → P (next gs).0)
    → P (o >>> next).0
after-lasts P (gs, none) next k h = h gs k
after-lasts P (gs, some e) next k h = k

each-lasts :
    {A : Type 0} (P : Files → Type 0) (f : A → Files → Outcome) (xs : List A) (fs : Files)
    → P fs
    → ((x : A) (gs : Files) → P gs → P (f x gs).0)
    → P (each f xs fs).0
unfolding each
each-lasts P f [] fs k h = k
each-lasts P f (x ∷ xs) fs k h =
    after-lasts P (f x fs) (each f xs) (h x fs k) (λ gs p. each-lasts P f xs gs p h)

-- What each step brings about holds of all in the end, if no step undoes it.
pub each-All :
    {A : Type 0} (P : A → Files → Type 0) (f : A → Files → Outcome) (xs : List A) (fs : Files)
    → ((x : A) (gs : Files) → (f x gs).1 ≡ none → P x (f x gs).0)
    → ((x y : A) (gs : Files) → P x gs → P x (f y gs).0)
    → (each f xs fs).1 ≡ none
    → All (λ x. P x (each f xs fs).0) xs
unfolding each
each-All P f [] fs does lasts done = tt
each-All P f (x ∷ xs) fs does lasts done =
    let (first, later, same) = after-none (f x fs) (each f xs) done in
    (
      subst (P x) (sym same) (each-lasts (P x) f xs (f x fs).0 (does x fs first) (lasts x)),
      subst (λ gs. All (λ y. P y gs) xs) (sym same) (each-All P f xs (f x fs).0 does lasts later),
    )
