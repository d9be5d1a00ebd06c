-- ===== src/Store/Runner.antt =====
-- internal/store/runner.go. A runner hands its client to a callback, which assigns a variable of the
-- caller: `run` takes the variable's value and returns the new one.
use dbstore.Common.{
  Bool, true, false, Option, none, some, ◌≡◌, refl, ap, ◌∙◌, ◌⊎◌, inl, inr, if◌then◌else◌,
  Bool-cases,
}
use dbstore.Store.Errors.{Error, is_not_found}

pub record Runner (T : Type 0) : Type 1 where
  pub run : {S : Type 0} → (T → S → S × Option Error) → S → S × Option Error

unfoldable pub exec : {T : Type 0} → Runner T → (T → Option Error) → Option Error
exec src fn = (src.run (λ c (u : Unit {0}). (u, fn c)) tt).1

-- `errors.Is(err, ErrNotFound)` on an error or nil.
abbrev pub is_miss : Option Error → Bool
is_miss none = false
is_miss (some e) = is_not_found e

abbrev zero_on_miss : {R : Type 0} → R → R × Option Error → R × Option Error
zero_on_miss default (result, e) = if is_miss e then (default, e) else (result, e)

unfoldable pub call : {T R : Type 0} → R → Runner T → (T → R × Option Error) → R × Option Error
call default src fn = zero_on_miss default (src.run (λ c result. fn c) default)

-- What a runner does: it refuses with an error of its own, or returns what its callback returns on a
-- client, which it calls once.
abbrev pub RunsOnce : {T : Type 0} → Runner T → Type 1
RunsOnce {T} src =
    (S : Type 0) (f : T → S → S × Option Error) (st : S)
    → ((e : Error) × (src.run f st ≡ (st, some e))) ⊎ ((c : T) × (src.run f st ≡ f c st))

-- What the runner makes of the callback that `Call` hands to it, which assigns its result.
abbrev pub outcome : {T R : Type 0} → R → Runner T → (T → R × Option Error) → R × Option Error
outcome default src fn = src.run (λ c result. fn c) default

-- What a caller gets of `Call`: where the runner refuses, the zero value with its error; where the callback
-- was called, the zero value with an error that is `ErrNotFound`, or exactly what the callback returned.
pub data Called {T R : Type 0} (default : R) (src : Runner T) (fn : T → R × Option Error)
    (r : R × Option Error) : Type 0 where
  refused :
      (e : Error)
      → outcome default src fn ≡ (default, some e)
      → r ≡ (default, some e)
      → Called default src fn r
  missed :
      (c : T)
      → outcome default src fn ≡ fn c
      → is_miss (fn c).1 ≡ true
      → r ≡ (default, (fn c).1)
      → Called default src fn r
  passed :
      (c : T)
      → outcome default src fn ≡ fn c
      → is_miss (fn c).1 ≡ false
      → r ≡ fn c
      → Called default src fn r

zero_on_miss_same :
    {R : Type 0} (default : R) (e : Option Error) → zero_on_miss default (default, e) ≡ (default, e)
zero_on_miss_same default e = elim (Bool-cases (is_miss e)) [
  | inl miss ↦ rw miss refl
  | inr other ↦ rw other refl
]

-- On a runner that refuses or calls back once, `Call` returns the zero value with the runner's error where
-- the runner refuses. Where it calls back, `Call` returns the zero value with the callback's error if that is
-- `ErrNotFound`, and otherwise the callback's result and error as they are, an error other than
-- `ErrNotFound` included.
pub call-Called :
    {T R : Type 0} (default : R) (src : Runner T) (fn : T → R × Option Error)
    → RunsOnce src
    → Called default src fn (call default src fn)
unfolding call
call-Called {R = R} default src fn once = elim (once R (λ c result. fn c) default) [
  | inl (e, h) ↦ refused e h (ap (zero_on_miss default) h ∙ zero_on_miss_same default (some e))
  | inr (c, h) ↦ elim (Bool-cases (is_miss (fn c).1)) [
    | inl miss ↦ missed c h miss (ap (zero_on_miss default) h ∙ rw miss refl)
    | inr other ↦ passed c h other (ap (zero_on_miss default) h ∙ rw other refl)
  ]
]
