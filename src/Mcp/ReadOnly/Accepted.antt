-- ===== src/Mcp/ReadOnly/Accepted.antt =====
-- What `validateReadOnlyQuery` accepts, and what it hands on.
use dbstore.Common.{ℕ, Bool, true, false, List, [], ◌∷◌, ◌++◌, ◌≡◌, ap, ◌∙◌, refl, subst, arith}
use dbstore.Mcp.Errors.{ok}
use dbstore.Mcp.ReadOnly.{
  is_space, trim_left, trim_right, trim_space, trim_semicolon, contains, first_field, is_select,
  has_into, is_empty, validate_read_only_query,
}

abbrev head_blank : List ℕ → Bool
head_blank [] = false
head_blank (x ∷ xs) = is_space x

head_blank-trim_left : (s : List ℕ) → head_blank (trim_left s) ≡ false
unfolding trim_left
head_blank-trim_left [] = refl
head_blank-trim_left (x ∷ xs) = ground (arith, head_blank-trim_left xs)

trim_left_same : (s : List ℕ) → head_blank s ≡ false → trim_left s ≡ s
unfolding trim_left
trim_left_same [] h = refl
trim_left_same (x ∷ xs) h = ground arith

head_blank-trim_right : (s : List ℕ) → head_blank s ≡ false → head_blank (trim_right s) ≡ false
unfolding trim_right
head_blank-trim_right [] h = refl
head_blank-trim_right (x ∷ xs) h = ground arith

trim_right_twice : (s : List ℕ) → trim_right (trim_right s) ≡ trim_right s
unfolding trim_right
trim_right_twice [] = refl
trim_right_twice (x ∷ xs) = ground (arith, trim_right_twice xs)

trim_space_twice : (s : List ℕ) → trim_space (trim_space s) ≡ trim_space s
unfolding trim_space
trim_space_twice s =
    ap trim_right (
      trim_left_same (trim_right (trim_left s))
        (head_blank-trim_right (trim_left s) (head_blank-trim_left s)))
    ∙ trim_right_twice (trim_left s)

module _ (c : ℕ) where
  contains-trim_left : (s : List ℕ) → contains c s ≡ false → contains c (trim_left s) ≡ false
  unfolding contains trim_left
  contains-trim_left [] h = refl
  contains-trim_left (x ∷ xs) h = ground (arith, contains-trim_left xs)

  contains-trim_right : (s : List ℕ) → contains c s ≡ false → contains c (trim_right s) ≡ false
  unfolding contains trim_right
  contains-trim_right [] h = refl
  contains-trim_right (x ∷ xs) h = ground (arith, contains-trim_right xs)

  contains-trim_space : (s : List ℕ) → contains c s ≡ false → contains c (trim_space s) ≡ false
  unfolding trim_space
  contains-trim_space s h = contains-trim_right (trim_left s) (contains-trim_left s h)

  contains-trim_semicolon :
      (s : List ℕ) → contains c s ≡ false → contains c (trim_semicolon s) ≡ false
  unfolding contains trim_semicolon
  contains-trim_semicolon [] h = refl
  contains-trim_semicolon (x ∷ []) h = ground arith
  contains-trim_semicolon (x ∷ y ∷ r) h = ground (arith, contains-trim_semicolon (y ∷ r))

trim_semicolon_same : (s : List ℕ) → contains b';' s ≡ false → trim_semicolon s ≡ s
unfolding contains trim_semicolon
trim_semicolon_same [] h = refl
trim_semicolon_same (x ∷ []) h = ground arith
trim_semicolon_same (x ∷ y ∷ r) h = ground (arith, trim_semicolon_same (y ∷ r))

select_is_something : (s : List ℕ) → is_select (first_field s) ≡ true → is_empty s ≡ false
unfolding first_field
select_is_something [] h = cc
select_is_something (x ∷ xs) h = refl

-- What the checks guarantee of a statement.
pub record IsReadOnly (s : List ℕ) : Type 0 where
  pub trimmed : trim_space s ≡ s
  pub no_nul : contains 0 s ≡ false
  pub single : contains b';' s ≡ false
  pub selects : is_select (first_field s) ≡ true
  pub no_into : has_into false s ≡ false

-- The query that is handed on has no space around it, no NUL and no semicolon, begins with the word
-- SELECT in any case, and has no word INTO.
pub validate-IsReadOnly : (query s : List ℕ) → validate_read_only_query query ≡ ok s → IsReadOnly s
unfolding validate_read_only_query
validate-IsReadOnly query s h =
    let e : trim_space (trim_semicolon (trim_space query)) ≡ s = ground arith in
    record {
      trimmed = subst (λ x. trim_space x ≡ x) e (trim_space_twice _);
      no_nul =
          subst (λ x. contains 0 x ≡ false) e
            (contains-trim_space 0 _ (contains-trim_semicolon 0 _ (ground arith)));
      single = ground arith;
      selects = ground arith;
      no_into = ground arith;
    }

-- A statement of this kind is accepted as it is: validating a second time changes nothing.
pub IsReadOnly-validate : (s : List ℕ) → IsReadOnly s → validate_read_only_query s ≡ ok s
unfolding validate_read_only_query
IsReadOnly-validate s v = ground (
  arith,
  v.trimmed,
  v.no_nul,
  v.single,
  v.selects,
  v.no_into,
  select_is_something s v.selects,
  trim_semicolon_same s v.single,
)

head_blank-snoc : (s : List ℕ) → head_blank s ≡ false → head_blank (s ++ b';' ∷ []) ≡ false
unfolding is_space
head_blank-snoc [] h = refl
head_blank-snoc (x ∷ xs) h = h

is_empty-snoc : (s : List ℕ) → is_empty (s ++ b';' ∷ []) ≡ false
is_empty-snoc [] = refl
is_empty-snoc (x ∷ xs) = refl

trim_right-snoc : (s : List ℕ) → trim_right (s ++ b';' ∷ []) ≡ s ++ b';' ∷ []
unfolding trim_right is_space
trim_right-snoc [] = refl
trim_right-snoc (x ∷ []) = ground arith
trim_right-snoc (x ∷ y ∷ r) = rw (trim_right-snoc (y ∷ r))

trim_semicolon-snoc : (s : List ℕ) → trim_semicolon (s ++ b';' ∷ []) ≡ s
unfolding trim_semicolon
trim_semicolon-snoc [] = refl
trim_semicolon-snoc (x ∷ []) = refl
trim_semicolon-snoc (x ∷ y ∷ r) = ap (λ l. x ∷ l) (trim_semicolon-snoc (y ∷ r))

contains-snoc : (s : List ℕ) → contains 0 s ≡ false → contains 0 (s ++ b';' ∷ []) ≡ false
unfolding contains
contains-snoc [] h = refl
contains-snoc (x ∷ xs) h = ground (arith, contains-snoc xs)

trim_space-snoc : (s : List ℕ) → IsReadOnly s → trim_space (s ++ b';' ∷ []) ≡ s ++ b';' ∷ []
unfolding trim_space
trim_space-snoc s v =
    ap trim_right (trim_left_same (s ++ b';' ∷ []) (head_blank-snoc s starts)) ∙ trim_right-snoc s
  where
    starts : head_blank s ≡ false
    starts =
        subst (λ x. head_blank x ≡ false) v.trimmed
          (head_blank-trim_right (trim_left s) (head_blank-trim_left s))

-- One semicolon at the end makes no difference.
validate-semicolon : (s : List ℕ) → IsReadOnly s → validate_read_only_query (s ++ b';' ∷ []) ≡ ok s
unfolding validate_read_only_query
validate-semicolon s v = ground (
  arith,
  trim_space-snoc s v,
  trim_semicolon-snoc s,
  contains-snoc s v.no_nul,
  is_empty-snoc s,
  v.trimmed,
  v.single,
  v.selects,
  v.no_into,
)
