-- ===== src/Common/Order.antt =====
-- Go's order on texts, which is that of the bytes.
use Prim.Native.Nat.{ℕ, zero, suc, Ordering, compare as compare_ℕ}
use Prim.Native.Nat.compare as number
use Prim.Native.Char.{code}
use Prim.Native.String.{String, compare, then}
use Prim.Native.String.compare as string
use mathlib.Core.Path.{◌≡◌, refl, sym, ap, ◌∙◌}
use mathlib.Core.Bool.{Bool, true, false}
use text.Mathlib.Text.{is_le}
use text.Mathlib.TextPositions.{compare_refl}

abbrev pub str_leb : String → String → Bool
str_leb s t = is_le (compare s t)

abbrev flip : Ordering → Ordering
flip Ordering.lt = Ordering.gt
flip Ordering.eq = Ordering.eq
flip Ordering.gt = Ordering.lt

numbers-flip : (m n : ℕ) → compare_ℕ n m ≡ flip (compare_ℕ m n)
numbers-flip zero zero = number.zero-zero ∙ ap flip (sym number.zero-zero)
numbers-flip zero (suc n) = number.suc-zero n ∙ ap flip (sym (number.zero-suc n))
numbers-flip (suc m) zero = number.zero-suc m ∙ ap flip (sym (number.suc-zero m))
numbers-flip (suc m) (suc n) =
    number.suc-suc n m ∙ numbers-flip m n ∙ ap flip (sym (number.suc-suc m n))

then-flip : (o r : Ordering) → then (flip o) (flip r) ≡ flip (then o r)
then-flip Ordering.lt r = refl
then-flip Ordering.eq r = refl
then-flip Ordering.gt r = refl

compare-flip : (s t : String) → compare t s ≡ flip (compare s t)
compare-flip String.[] String.[] = string.nil-nil ∙ ap flip (sym string.nil-nil)
compare-flip String.[] (String.◌∷◌ d t) = string.cons-nil d t ∙ ap flip (sym (string.nil-cons d t))
compare-flip (String.◌∷◌ c s) String.[] = string.nil-cons c s ∙ ap flip (sym (string.cons-nil c s))
compare-flip (String.◌∷◌ c s) (String.◌∷◌ d t) =
    string.cons-cons d c t s
    ∙ ap (λ o. then o (compare t s)) (numbers-flip (code c) (code d))
    ∙ ap (then (flip (compare_ℕ (code c) (code d)))) (compare-flip s t)
    ∙ then-flip (compare_ℕ (code c) (code d)) (compare s t)
    ∙ ap flip (sym (string.cons-cons c d s t))

le_flip : (o : Ordering) → is_le o ≡ false → is_le (flip o) ≡ true
le_flip Ordering.lt h = cc
le_flip Ordering.eq h = refl
le_flip Ordering.gt h = refl

-- One of two texts is at most the other.
pub str_leb_total : (s t : String) → str_leb s t ≡ false → str_leb t s ≡ true
str_leb_total s t h = ap is_le (compare-flip s t) ∙ le_flip (compare s t) h

pub str_leb_refl : (s : String) → str_leb s s ≡ true
str_leb_refl s = ap is_le (compare_refl s)
