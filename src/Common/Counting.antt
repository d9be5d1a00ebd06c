-- ===== src/Common/Counting.antt =====
-- How often a number occurs.
use Prim.Native.Nat.{ℕ, ◌+◌, ◌<◌}
use Prim.Native.String.{String}
use mathlib.Core.Path.{◌≡◌}
use mathlib.Core.List.{List, [], ◌∷◌, map}
use mathlib.Core.Option.{some}
use native.Mathlib.Omega.{arith}
use dbstore.Common.Tests.{◌==◌, if◌then◌else◌}
use dbstore.Common.Assoc.{lookup, delete}

abbrev pub hit : ℕ → ℕ → ℕ
hit e x = if x == e then 1 else 0

abbrev pub count : ℕ → List ℕ → ℕ
count e [] = 0
count e (x ∷ xs) = hit e x + count e xs

abbrev pub ids : List (String × ℕ) → List ℕ
ids = map (λ p. p.1)

-- Deleting a key takes its value out once.
pub count-delete :
    (e : ℕ) (k : String) (x : ℕ) (m : List (String × ℕ))
    → lookup k m ≡ some x
    → count e (ids (delete k m)) + hit e x ≡ count e (ids m)
count-delete e k x [] h = cc
count-delete e k x ((j, v) ∷ m) h = ground (arith, count-delete e k x m)

-- A value that a key finds occurs.
pub count-lookup :
    (name : String) (c : ℕ) (m : List (String × ℕ)) → lookup name m ≡ some c → 0 < count c (ids m)
count-lookup name c [] h = cc
count-lookup name c ((j, v) ∷ m) h = ground (arith, count-lookup name c m)
