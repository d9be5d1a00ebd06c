-- ===== src/Store/Adapter/Stack.antt =====
-- Association lists to which `Adapter.Configure` adds names that are not there, and takes them away again.
use dbstore.Common.{
  ℕ, suc, ◌≡◌, refl, false, String, str_eq, none, List, [], ◌∷◌, ◌++◌, lookup, delete, arith,
  eq_iff,
}
use dbstore.Store.Config.{SourceConfig}

-- The sources that a call has opened, oldest first, on top of the entries that it found.
abbrev pub stack : List (String × ℕ) → List (String × ℕ) → List (String × ℕ)
stack [] es = es
stack (o ∷ os) es = stack os (o ∷ es)

pub stack-append :
    (os : List (String × ℕ)) (o : String × ℕ) (es : List (String × ℕ))
    → stack (os ++ o ∷ []) es ≡ o ∷ stack os es
stack-append [] o es = refl
stack-append (x ∷ os) o es = stack-append os o (x ∷ es)

abbrev pub Distinct : List (String × ℕ) → Type 0
Distinct [] = Unit {0}
Distinct ((name, c) ∷ os) = (lookup name os ≡ none) × Distinct os

pub lookup-stack :
    (n : String) (os es : List (String × ℕ))
    → lookup n os ≡ none
    → lookup n (stack os es) ≡ lookup n es
lookup-stack n [] es h = refl
lookup-stack n ((j, v) ∷ os) es h = ground (arith, lookup-stack n os ((j, v) ∷ es))

pub delete-stack :
    (n : String) (os es : List (String × ℕ))
    → lookup n os ≡ none
    → delete n (stack os es) ≡ stack os (delete n es)
delete-stack n [] es h = refl
delete-stack n ((j, v) ∷ os) es h = ground (arith, delete-stack n os ((j, v) ∷ es))

pub lookup-stack-none :
    (n : String) (os es : List (String × ℕ)) → lookup n (stack os es) ≡ none → lookup n os ≡ none
lookup-stack-none n [] es h = refl
lookup-stack-none n ((j, v) ∷ os) es h =
    let rest = lookup-stack-none n os ((j, v) ∷ es) h in
    ground (arith, rest, lookup-stack n os ((j, v) ∷ es) rest)

lookup-snoc :
    (m n : String) (c : ℕ) (os : List (String × ℕ))
    → str_eq n m ≡ false
    → lookup m os ≡ none
    → lookup m (os ++ (n, c) ∷ []) ≡ none
lookup-snoc m n c [] ne h = ground arith
lookup-snoc m n c ((j, v) ∷ os) ne h = ground (arith, lookup-snoc m n c os ne)

pub Distinct-snoc :
    (n : String) (c : ℕ) (os : List (String × ℕ))
    → lookup n os ≡ none
    → Distinct os
    → Distinct (os ++ (n, c) ∷ [])
Distinct-snoc n c [] h u = (refl, tt)
Distinct-snoc n c ((j, v) ∷ os) h u = (
  lookup-snoc j n c os (ground (arith, eq_iff j n, eq_iff n j)) u.0,
  Distinct-snoc n c os (ground arith) u.1,
)

-- The sources of the configuration, as the map has them once all are open: each name with the client
-- that was opened for it.
abbrev pub numbered : ℕ → List (String × SourceConfig) → List (String × ℕ)
numbered c [] = []
numbered c ((n, _) ∷ rest) = (n, c) ∷ numbered (suc c) rest
