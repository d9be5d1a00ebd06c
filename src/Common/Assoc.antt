-- ===== src/Common/Assoc.antt =====
-- A Go map with text keys as an association list. The code writes a key only after it has seen
-- that the key is missing, so keys do not repeat, and `delete` drops the one entry of its key.

use Prim.Native.String.{String}
use mathlib.Core.List.{List, [], ◌∷◌}
use mathlib.Core.Option.{Option, none, some}
use Prim.Native.Nat.{suc}
use mathlib.Core.Path.{◌≡◌, refl}
use mathlib.Core.Bool.{false}
use native.Mathlib.Omega.{arith}
use text.Mathlib.TextEquality.{eq_iff}
use dbstore.Common.Lists.{length, All}
use mathlib.Core.Logic.{inl, inr}
use mathlib.Core.Path.{subst}
use dbstore.Common.Tests.{str_eq, if◌then◌else◌, Bool-cases}

module _ {ℓ} {V : Type ℓ} where
  abbrev pub lookup : String → List (String × V) → Option V
  lookup k [] = none
  lookup k ((j, v) ∷ m) = if str_eq j k then some v else lookup k m

  abbrev pub delete : String → List (String × V) → List (String × V)
  delete k [] = []
  delete k ((j, v) ∷ m) = if str_eq j k then m else (j, v) ∷ delete k m

  -- A write, of a new key or of one that is there.
  abbrev pub insert : String → V → List (String × V) → List (String × V)
  insert key value [] = (key, value) ∷ []
  insert key value (entry ∷ entries) =
      let rest = insert key value entries in
      if str_eq entry.0 key then (key, value) ∷ entries else entry ∷ rest

  pub lookup-delete_other :
      (k j : String) (m : List (String × V))
      → str_eq k j ≡ false
      → lookup j (delete k m) ≡ lookup j m
  lookup-delete_other k j [] h = refl
  lookup-delete_other k j ((i, w) ∷ m) h =
      ground (arith, eq_iff i k, eq_iff i j, eq_iff k j, lookup-delete_other k j m h)

  pub length-delete_found :
      (k : String) (v : V) (m : List (String × V))
      → lookup k m ≡ some v
      → suc (length (delete k m)) ≡ length m
  length-delete_found k v [] h = cc
  length-delete_found k v ((j, w) ∷ m) h = ground (arith, length-delete_found k v m)

  pub lookup-insert :
      (key other : String) (value : V) (entries : List (String × V))
      → lookup other (insert key value entries)
        ≡ (if str_eq key other then some value else lookup other entries)
  lookup-insert key other value [] = refl
  lookup-insert key other value ((k, v) ∷ entries) =
      ground (
        arith,
        lookup-insert key other value entries,
        eq_iff k other,
        eq_iff key other,
        eq_iff k key,
      )

module _ {ℓ κ} {V : Type ℓ} (P : String × V → Type κ) where
  -- Where the entries have a property, so have those of the map with one more.
  pub All-insert :
      (k : String) (v : V) (m : List (String × V)) → P (k, v) → All P m → All P (insert k v m)
  All-insert k v [] p h = (p, tt)
  All-insert k v ((j, w) ∷ m) p h = elim (Bool-cases (str_eq j k)) [
    | inl same ↦ rw same (p, h.1)
    | inr other ↦ rw other (h.0, All-insert k v m p h.1)
  ]

  pub All-lookup :
      (k : String) (v : V) (m : List (String × V)) → lookup k m ≡ some v → All P m → P (k, v)
  All-lookup k v [] found h = cc
  All-lookup k v ((j, w) ∷ m) found h = elim (Bool-cases (str_eq j k)) [
    | inl same ↦
        let value : w ≡ v = ground (arith, found, same) in
        subst (λ i. P (i, v)) ((eq_iff j k).0 same) (subst (λ x. P (j, x)) value h.0)
    | inr other ↦ All-lookup k v m (ground (arith, found, other)) h.1
  ]
