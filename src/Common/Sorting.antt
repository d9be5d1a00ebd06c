-- ===== src/Common/Sorting.antt =====
-- Sorting by a text: `sort.Strings`, and `sort.Slice` where the keys differ.
use Prim.Native.Nat.{ℕ, ◌+◌}
use Prim.Native.String.{String}
use mathlib.Core.Path.{◌≡◌, refl}
use mathlib.Core.Logic.{inl, inr}
use mathlib.Core.Bool.{true, false}
use mathlib.Core.Option.{Option, none, some}
use mathlib.Core.List.{List, [], ◌∷◌}
use native.Mathlib.Omega.{arith}
use text.Mathlib.TextEquality.{eq_iff}
use dbstore.Common.Tests.{str_eq, if◌then◌else◌, Bool-cases}
use dbstore.Common.Lists.{All}
use dbstore.Common.Order.{str_leb, str_leb_total, str_leb_refl}

module _ {ℓ} {A : Type ℓ} (key : A → String) where
  abbrev pub insert_by : A → List A → List A
  insert_by x [] = x ∷ []
  insert_by x (y ∷ ys) = if str_leb (key x) (key y) then x ∷ y ∷ ys else y ∷ insert_by x ys

  abbrev pub sort_by : List A → List A
  sort_by [] = []
  sort_by (x ∷ xs) = insert_by x (sort_by xs)

  -- Is the key at most that of the first element?
  abbrev pub IsBelow : String → List A → Type 0
  IsBelow k [] = Unit {0}
  IsBelow k (x ∷ xs) = str_leb k (key x) ≡ true

  abbrev pub IsSorted : List A → Type 0
  IsSorted [] = Unit {0}
  IsSorted (x ∷ xs) = IsBelow (key x) xs × IsSorted xs

  abbrev pub find_by : String → List A → Option A
  find_by k [] = none
  find_by k (x ∷ xs) = if str_eq (key x) k then some x else find_by k xs

  abbrev pub occurrences : String → List A → ℕ
  occurrences k [] = 0
  occurrences k (x ∷ xs) = (if str_eq (key x) k then 1 else 0) + occurrences k xs

  insert_by-IsBelow :
      (k : String) (x : A) (ys : List A)
      → str_leb k (key x) ≡ true
      → IsBelow k ys
      → IsBelow k (insert_by x ys)
  insert_by-IsBelow k x [] h b = h
  insert_by-IsBelow k x (y ∷ ys) h b = elim (Bool-cases (str_leb (key x) (key y))) [
    | inl le ↦ rw le h
    | inr gt ↦ rw gt b
  ]

  insert_by-IsSorted : (x : A) (ys : List A) → IsSorted ys → IsSorted (insert_by x ys)
  insert_by-IsSorted x [] s = (tt, tt)
  insert_by-IsSorted x (y ∷ ys) s = elim (Bool-cases (str_leb (key x) (key y))) [
    | inl le ↦ rw le (le, s)
    | inr gt ↦ rw gt (
      insert_by-IsBelow (key y) x ys (str_leb_total (key x) (key y) gt) s.0,
      insert_by-IsSorted x ys s.1,
    )
  ]

  pub sort_by-IsSorted : (xs : List A) → IsSorted (sort_by xs)
  sort_by-IsSorted [] = tt
  sort_by-IsSorted (x ∷ xs) = insert_by-IsSorted x (sort_by xs) (sort_by-IsSorted xs)

  differ : (j k : String) → str_leb j k ≡ false → str_eq j k ≡ false
  differ j k h = ground (arith, eq_iff j k, str_leb_refl j)

  find-insert_by :
      (k : String) (x : A) (ys : List A) → find_by k (insert_by x ys) ≡ find_by k (x ∷ ys)
  find-insert_by k x [] = refl
  find-insert_by k x (y ∷ ys) = ground (
    arith,
    find-insert_by k x ys,
    differ (key x) (key y),
    eq_iff (key x) k,
    eq_iff (key y) k,
    eq_iff (key x) (key y),
  )

  -- What is found under a key, and how often a key occurs, is as before.
  pub find-sort_by : (k : String) (xs : List A) → find_by k (sort_by xs) ≡ find_by k xs
  find-sort_by k [] = refl
  find-sort_by k (x ∷ xs) = ground (arith, find-insert_by k x (sort_by xs), find-sort_by k xs)

  occurrences-insert_by :
      (k : String) (x : A) (ys : List A) → occurrences k (insert_by x ys) ≡ occurrences k (x ∷ ys)
  occurrences-insert_by k x [] = refl
  occurrences-insert_by k x (y ∷ ys) = ground (arith, occurrences-insert_by k x ys)

  pub occurrences-sort_by :
      (k : String) (xs : List A) → occurrences k (sort_by xs) ≡ occurrences k xs
  occurrences-sort_by k [] = refl
  occurrences-sort_by k (x ∷ xs) =
      ground (arith, occurrences-insert_by k x (sort_by xs), occurrences-sort_by k xs)

module _ {ℓ κ} {A : Type ℓ} (key : A → String) (P : A → Type κ) where
  All-insert_by : (x : A) (ys : List A) → P x → All P ys → All P (insert_by key x ys)
  All-insert_by x [] p h = (p, tt)
  All-insert_by x (y ∷ ys) p h = elim (Bool-cases (str_leb (key x) (key y))) [
    | inl le ↦ rw le (p, h)
    | inr gt ↦ rw gt (h.0, All-insert_by x ys p h.1)
  ]

  pub All-sort_by : (xs : List A) → All P xs → All P (sort_by key xs)
  All-sort_by [] h = tt
  All-sort_by (x ∷ xs) h = All-insert_by x (sort_by key xs) h.0 (All-sort_by xs h.1)
