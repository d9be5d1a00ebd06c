-- ===== src/Common/Sums.antt =====
-- Sums of a weight over a list, and concatenations, under a write at one index: what a step of one
-- goroutine changes of a quantity that is spread over all of them.
use Prim.Native.Nat.{ℕ, zero, suc, ◌+◌, ◌-◌, ◌≤◌, ◌<◌}
use mathlib.Core.Path.{◌≡◌, refl, sym, ◌∙◌}
use mathlib.Core.Logic.{◌⊎◌, inl, inr}
use mathlib.Core.List.{List, [], ◌∷◌, ◌++◌, append-nil}
use mathlib.Core.Option.{some}
use native.Mathlib.Omega.{arith}
use native.Mathlib.Decide.{dec_lt, ℕ_discrete}
use dbstore.Common.Lists.{get_elem?, set}

module _ {ℓ} {A : Type ℓ} (w : A → ℕ) where
  abbrev pub total : List A → ℕ
  total [] = 0
  total (x ∷ xs) = w x + total xs

  pub total-set :
      (xs : List A) (i : ℕ) (a b : A)
      → get_elem? xs i ≡ some a
      → total (set xs i b) + w a ≡ total xs + w b
  total-set [] i a b h = cc
  total-set (x ∷ xs) zero a b h = ground arith
  total-set (x ∷ xs) (suc i) a b h = omega (arith, total-set xs i a b h)

  pub total-append : (xs ys : List A) → total (xs ++ ys) ≡ total xs + total ys
  total-append [] ys = omega arith
  total-append (x ∷ xs) ys = omega (arith, total-append xs ys)

  -- One element's weight is part of the sum.
  pub le-total : (xs : List A) (i : ℕ) (a : A) → get_elem? xs i ≡ some a → w a ≤ total xs
  le-total [] i a h = ground arith
  le-total (x ∷ xs) zero a h = ground arith
  le-total (x ∷ xs) (suc i) a h = omega (arith, le-total xs i a h)

-- What one element holds, while all others hold nothing.
module _ {ℓ κ} {A : Type ℓ} {B : Type κ} (w : A → ℕ) (f : A → List B) where
  abbrev pub gather : List A → List B
  gather [] = []
  gather (x ∷ xs) = f x ++ gather xs

  pub gather-none : ((a : A) → w a ≡ 0 → f a ≡ []) → (xs : List A) → total w xs ≡ 0 → gather xs ≡ []
  gather-none empty [] h = refl
  gather-none empty (x ∷ xs) h = ground (arith, empty x, gather-none empty xs)

  gather-set :
      ((a : A) → w a ≡ 0 → f a ≡ [])
      → (xs : List A) (i : ℕ) (a b : A) → get_elem? xs i ≡ some a
      → total w xs ≡ w a
      → gather (set xs i b) ≡ f b
  gather-set empty [] i a b h t = cc
  gather-set empty (x ∷ xs) zero a b h t = ground (arith, gather-none empty xs, append-nil (f b))
  gather-set empty (x ∷ xs) (suc i) a b h t =
      ground (arith, empty x, le-total w xs i a h, gather-set empty xs i a b h)

  gather-set_same :
      (xs : List A) (i : ℕ) (a b : A)
      → get_elem? xs i ≡ some a
      → f a ≡ f b
      → gather (set xs i b) ≡ gather xs
  gather-set_same [] i a b h e = cc
  gather-set_same (x ∷ xs) zero a b h e = ground arith
  gather-set_same (x ∷ xs) (suc i) a b h e = ground (arith, gather-set_same xs i a b h e)

-- A property of the sum, and of what else changes, goes from before a write to after it if it does
-- so whatever the others add up to.
module _ {ℓ κ} {A : Type ℓ} (w : A → ℕ) (P P' : ℕ → Type κ) where
  pub total-step :
      (xs : List A) (i : ℕ) (a b : A)
      → get_elem? xs i ≡ some a
      → ((r : ℕ) → P (r + w a) → P' (r + w b))
      → P (total w xs)
      → P' (total w (set xs i b))
  total-step xs i a b h keep start =
      let r : ℕ = total w xs - w a in
      let before : total w xs ≡ r + w a = omega (arith, le-total w xs i a h) in
      let later : total w (set xs i b) ≡ r + w b =
        omega (arith, le-total w xs i a h, total-set w xs i a b h) in
      rw later (keep r (rw before at start))

-- An element that carries weight, where the sum is positive.
pub total_pos {ℓ} :
    {A : Type ℓ} (w : A → ℕ) (xs : List A)
    → 0 < total w xs
    → (i : ℕ) × (a : A) × (get_elem? xs i ≡ some a) × (0 < w a)
total_pos w [] h = elim h [ ]
total_pos w (x ∷ xs) h = elim (dec_lt 0 (w x)) [
  | yes here ↦ (0, x, refl, here)
  | no miss ↦ let (i, a, e, p) = total_pos w xs (omega arith) in (suc i, a, e, p)
]

-- The same for three sums that a property relates.
module _ {ℓ κ} {A : Type ℓ} (u v w : A → ℕ) (P P' : ℕ → ℕ → ℕ → Type κ) where
  pub total-step_three :
      (xs : List A) (i : ℕ) (a b : A)
      → get_elem? xs i ≡ some a
      → ((r s t : ℕ) → P (r + u a) (s + v a) (t + w a) → P' (r + u b) (s + v b) (t + w b))
      → P (total u xs) (total v xs) (total w xs)
      → P' (total u (set xs i b)) (total v (set xs i b)) (total w (set xs i b))
  total-step_three xs i a b h keep =
      total-step u (λ l. P l (total v xs) (total w xs))
        (λ l. P' l (total v (set xs i b)) (total w (set xs i b))) xs i a b h
        λ r.
          total-step v (λ m. P (r + u a) m (total w xs))
            (λ m. P' (r + u b) m (total w (set xs i b))) xs i a b h
            λ s. total-step w (P (r + u a) (s + v a)) (P' (r + u b) (s + v b)) xs i a b h (keep r s)

-- With at most one holder before and after a write, what all hold is what the others hold and what
-- the written element holds; the others hold something only where it is no holder.
module _ {ℓ κ} {A : Type ℓ} {B : Type κ} (w : A → ℕ) (f : A → List B) where
  pub gather-frame :
      ((a : A) → w a ≡ 0 → f a ≡ [])
      → (xs : List A) (i : ℕ) (a b : A) → get_elem? xs i ≡ some a
      → total w xs ≤ 1
      → total w (set xs i b) ≤ 1
      → (r : List B) × (gather w f xs ≡ r ++ f a)
        × (gather w f (set xs i b) ≡ r ++ f b)
        × ((r ≡ []) ⊎ ((total w xs ≡ 1) × (w a ≡ 0)))
  gather-frame empty xs i a b h one later = elim (ℕ_discrete (total w xs) (w a)) [
    | yes alone ↦ (
      [],
      cc (gather-set w f empty xs i a a h alone, gather-set_same w f xs i a a h refl),
      gather-set w f empty xs i a b h alone,
      inl refl,
    )
    | no shared ↦
        let out : w a ≡ 0 = omega (arith, le-total w xs i a h) in
        let out' : w b ≡ 0 = omega (arith, le-total w xs i a h, total-set w xs i a b h) in
        (
          gather w f xs,
          rw (empty a out) (sym (append-nil (gather w f xs))),
          rw (empty b out') (
              gather-set_same w f xs i a b h (empty a out ∙ sym (empty b out'))
              ∙ sym (append-nil (gather w f xs))),
          inr (omega (arith, le-total w xs i a h), out),
        )
  ]

pub total_mono {ℓ} :
    {A : Type ℓ} (u w : A → ℕ) (xs : List A) → ((a : A) → u a ≤ w a) → total u xs ≤ total w xs
total_mono u w [] h = omega arith
total_mono u w (x ∷ xs) h = omega (arith, h x, total_mono u w xs h)
