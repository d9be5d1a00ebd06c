-- ===== src/Common/Decimal.antt =====
-- A natural number in decimals, as `%d` prints it.
use Prim.Native.Nat.{ℕ, zero, suc, ◌+◌, ◌-◌, ◌*◌, ◌/◌, ◌%◌, ◌≤◌, ◌<◌}
use Prim.Native.Char.{code}
use Prim.Native.String
use Prim.Native.String.{String}
use Prim.Native.String.append
use mathlib.Core.Path.{◌≡◌, refl, sym, ap, ◌∙◌}
use mathlib.Core.Logic.{inl, inr}
use native.Mathlib.Omega.{arith}
use dbstore.Common.Tests.{ltb, if◌then◌else◌, Bool-cases}

digit : ℕ → String
digit zero = "0"
digit (suc zero) = "1"
digit (suc (suc zero)) = "2"
digit (suc (suc (suc zero))) = "3"
digit (suc (suc (suc (suc zero)))) = "4"
digit (suc (suc (suc (suc (suc zero))))) = "5"
digit (suc (suc (suc (suc (suc (suc zero)))))) = "6"
digit (suc (suc (suc (suc (suc (suc (suc zero))))))) = "7"
digit (suc (suc (suc (suc (suc (suc (suc (suc zero)))))))) = "8"
digit _ = "9"

-- With the number as the fuel.
digits : ℕ → ℕ → String
digits zero n = digit n
digits (suc fuel) n =
    let leading = digits fuel (n / 10) in
    if ltb n 10 then digit n else String.◌++◌ leading (digit (n % 10))

unfoldable pub decimal : ℕ → String
unfolding digits digit
decimal n = digits n n

-- What the digits of a text stand for, after those that were read.
value : String → ℕ → ℕ
value String.[] acc = acc
value (String.◌∷◌ c s) acc = value s (acc * 10 + (code c - 48))

value-append : (s t : String) (acc : ℕ) → value (String.◌++◌ s t) acc ≡ value t (value s acc)
unfolding value
value-append String.[] t acc = rw append.nil refl
value-append (String.◌∷◌ c s) t acc = rw append.cons (value-append s t (acc * 10 + (code c - 48)))

value-digit : (n acc : ℕ) → n < 10 → value (digit n) acc ≡ acc * 10 + n
unfolding value digit
value-digit zero acc h = omega arith
value-digit (suc zero) acc h = omega arith
value-digit (suc (suc zero)) acc h = omega arith
value-digit (suc (suc (suc zero))) acc h = omega arith
value-digit (suc (suc (suc (suc zero)))) acc h = omega arith
value-digit (suc (suc (suc (suc (suc zero))))) acc h = omega arith
value-digit (suc (suc (suc (suc (suc (suc zero)))))) acc h = omega arith
value-digit (suc (suc (suc (suc (suc (suc (suc zero))))))) acc h = omega arith
value-digit (suc (suc (suc (suc (suc (suc (suc (suc zero)))))))) acc h = omega arith
value-digit (suc (suc (suc (suc (suc (suc (suc (suc (suc zero))))))))) acc h = omega arith
value-digit (suc (suc (suc (suc (suc (suc (suc (suc (suc (suc n)))))))))) acc h =
    absurd (omega arith)

value-digits : (fuel n : ℕ) → n ≤ fuel → value (digits fuel n) 0 ≡ n
unfolding digits
value-digits zero n h = value-digit n 0 (omega arith) ∙ omega arith
value-digits (suc fuel) n h = elim (Bool-cases (ltb n 10)) [
  | inl small ↦ rw small (value-digit n 0 (ground arith) ∙ omega arith)
  | inr big ↦ rw big (
      value-append (digits fuel (n / 10)) (digit (n % 10)) 0
      ∙ value-digit (n % 10) (value (digits fuel (n / 10)) 0) (omega arith)
      ∙ ap (λ v. v * 10 + n % 10) (value-digits fuel (n / 10) (ground arith))
      ∙ omega arith)
]

-- Different numbers are printed differently.
pub decimal_inj : (m n : ℕ) → decimal m ≡ decimal n → m ≡ n
unfolding decimal
decimal_inj m n h =
    sym (value-digits m m (omega arith)) ∙ ap (λ s. value s 0) h ∙ value-digits n n (omega arith)
