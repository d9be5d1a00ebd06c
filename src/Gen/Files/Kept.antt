-- ===== src/Gen/Files/Kept.antt =====
-- Which files a run of cmd/dbstore-gen may change.
use dbstore.Common.{
  ◌≡◌, ap, ◌∙◌, true, false, String, str_eq, eq_iff, Option, none, some, List, [], ◌∷◌, lookup,
  insert, lookup-insert, Bool-cases, Option-cases, inl, inr,
}
use dbstore.Gen.Errors.{Result, ok, err}
use dbstore.Gen.Config.{member}
use dbstore.Gen.Files.{
  Files, Os, Outcome, ◌>>>◌, put, write_file, write_rendered, write_if_missing, each,
}

-- Of the files that were there, only those of the list have changed.
abbrev pub Keeps : List String → Files → Files → Type 0
Keeps own fs gs =
    (path t : String) → member path own ≡ false → lookup path fs ≡ some t → lookup path gs ≡ some t

Keeps-insert :
    (own : List String) (path t : String) (fs : Files)
    → ((s : String) → lookup path fs ≡ some s → member path own ≡ true)
    → Keeps own fs (insert path t fs)
Keeps-insert own path t fs free p s other held = elim (Bool-cases (str_eq path p)) [
  | inl same ↦
      let here : path ≡ p = (eq_iff path p).0 same in
      let owned : member path own ≡ true = free s (ap (λ q. lookup q fs) here ∙ held) in cc
  | inr differ ↦ lookup-insert path p t fs ∙ rw differ held
]

Keeps-put :
    (own : List String) (path : String) (t : Option String) (fs : Files)
    → ((s : String) → lookup path fs ≡ some s → member path own ≡ true)
    → Keeps own fs (put path t fs)
Keeps-put own path none fs free = λ p s other held. held
Keeps-put own path (some t) fs free = Keeps-insert own path t fs free

write_file-Keeps :
    (own : List String) (os : Os) (path t : String) (fs : Files)
    → ((s : String) → lookup path fs ≡ some s → member path own ≡ true)
    → Keeps own fs (write_file os path t fs).0
unfolding write_file
write_file-Keeps own os path t fs free = elim (Bool-cases (os.write_fails path)) [
  | inl fails ↦ rw fails (Keeps-put own path (os.part path t) fs free)
  | inr works ↦ rw works (Keeps-insert own path t fs free)
]

pub write_rendered-Keeps :
    (own : List String) (os : Os) (path : String) (r : Result String) (fs : Files)
    → ((s : String) → lookup path fs ≡ some s → member path own ≡ true)
    → Keeps own fs (write_rendered os path r fs).0
unfolding write_rendered
write_rendered-Keeps own os path (err e) fs free = λ p s other held. held
write_rendered-Keeps own os path (ok t) fs free = write_file-Keeps own os path t fs free

pub write_if_missing-Keeps :
    (own : List String) (os : Os) (path : String) (r : Result String) (fs : Files)
    → Keeps own fs (write_if_missing os path r fs).0
unfolding write_if_missing
write_if_missing-Keeps own os path r fs = elim (Bool-cases (os.stat_fails path)) [
  | inl fails ↦ rw fails (λ p s other held. held)
  | inr works ↦ elim (Option-cases (lookup path fs)) [
    | inl free ↦ rw works (rw free (write_rendered-Keeps own os path r fs (λ s held. cc)))
    | inr (t, there) ↦ rw works (rw there (λ p s other held. held))
  ]
]

pub after-Keeps :
    (own : List String) (fs : Files) (o : Outcome) (next : Files → Outcome)
    → Keeps own fs o.0
    → ((gs : Files) → Keeps own gs (next gs).0)
    → Keeps own fs (o >>> next).0
after-Keeps own fs (gs, none) next k h = λ p s other held. h gs p s other (k p s other held)
after-Keeps own fs (gs, some e) next k h = k

pub each-Keeps :
    {A : Type 0} (own : List String) (f : A → Files → Outcome) (xs : List A) (fs : Files)
    → ((x : A) (gs : Files) → Keeps own gs (f x gs).0)
    → Keeps own fs (each f xs fs).0
unfolding each
each-Keeps own f [] fs h = λ p s other held. held
each-Keeps own f (x ∷ xs) fs h =
    after-Keeps own fs (f x fs) (each f xs) (h x fs) (λ gs. each-Keeps own f xs gs h)
