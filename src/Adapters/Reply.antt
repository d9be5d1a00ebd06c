-- ===== src/Adapters/Reply.antt =====
-- What a package outside the repository answers to a call of an adapter.
use dbstore.Common.{ℕ, suc, String, Option, none, some, ◌≡◌, ◌↔◌, refl, subst}

-- A value, or the number of an error of that package.
pub data Reply {ℓ} (A : Type ℓ) : Type ℓ where
  failed : ℕ → Reply A
  got : A → Reply A

-- Does a result come from a reply that has the property?
abbrev pub Reflects : {A : Type 0} → Reply A → (A → Type 0) → Type 0 → Type 0
Reflects {A = A} reply P result = result ↔ ((a : A) × (reply ≡ got a) × P a)

pub Reflects-failed :
    {A : Type 0} (e : ℕ) (P : A → Type 0) (result : Type 0)
    → ¬ result
    → Reflects (failed e) P result
Reflects-failed e P result never = (λ h. absurd (never h), λ (a, h, p). cc)

pub Reflects-got :
    {A : Type 0} (a : A) (P : A → Type 0) (result : Type 0)
    → result ↔ P a
    → Reflects (got a) P result
Reflects-got a P result same =
    (λ h. (a, refl, same.0 h), λ (b, h, p). same.1 (let one : b ≡ a = cc in subst P one p))

-- What a call leaves: its error, what it has decoded, and the response bodies that it opened and closed.
pub record Exchange (E : Type 0) : Type 0 where
  pub error : Option E
  pub decoded : Option String
  pub opened : ℕ
  pub closed : ℕ

module _ {E : Type 0} where
  abbrev pub before_response : E → Exchange E
  before_response e = record { error = some e; decoded = none; opened = 0; closed = 0 }

  abbrev pub with_body : Option E → Option String → Exchange E
  with_body e t = record { error = e; decoded = t; opened = 1; closed = 0 }

  -- The deferred `Close` of the body.
  abbrev pub close : Exchange E → Exchange E
  close x = record x { closed = suc x.closed }
