-- ===== src/Common/Gauges.antt =====
-- Integers as gauges: a difference of two counts, and what one more or one less makes of it.
use Prim.Native.Nat.{ℕ, zero, suc, ◌+◌}
use mathlib.Core.Path.{◌≡◌, refl}
use native.Mathlib.Omega.{arith}
use dbstore.Common.Tests.{ℤ, pos, negsuc}

abbrev pub inc : ℤ → ℤ
inc (pos n) = pos (suc n)
inc (negsuc zero) = pos zero
inc (negsuc (suc n)) = negsuc n

abbrev pub dec : ℤ → ℤ
dec (pos zero) = negsuc zero
dec (pos (suc n)) = pos n
dec (negsuc n) = negsuc (suc n)

unfoldable pub minus : ℕ → ℕ → ℤ
minus a zero = pos a
minus zero (suc b) = negsuc b
minus (suc a) (suc b) = minus a b

pub inc-minus : (a b : ℕ) → inc (minus a b) ≡ minus (suc a) b
unfolding minus
inc-minus a zero = refl
inc-minus zero (suc zero) = refl
inc-minus zero (suc (suc b)) = refl
inc-minus (suc a) (suc b) = inc-minus a b

pub dec-minus : (a b : ℕ) → dec (minus a b) ≡ minus a (suc b)
unfolding minus
dec-minus zero zero = refl
dec-minus (suc a) zero = refl
dec-minus zero (suc b) = refl
dec-minus (suc a) (suc b) = dec-minus a b

pub minus_same : (b n : ℕ) → minus (b + n) b ≡ pos n
unfolding minus
minus_same zero n = ground arith
minus_same (suc b) n = ground (arith, minus_same b n)
