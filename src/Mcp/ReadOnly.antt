-- ===== src/Mcp/ReadOnly.antt =====
-- `validateReadOnlyQuery` of mcpserver/sql.go, over the code points of a query in valid UTF-8, with
-- what it uses of package strings, and the pattern `(?i)\bINTO\b`.
pub mod Accepted
use Prim.Native.Char.{code}
use Prim.Native.String
use dbstore.Common.{
  ℕ, zero, suc, ◌+◌, ◌-◌, ltb, leb, ◌==◌, Bool, true, false, not, ◌&&◌, ◌||◌, String, Option, none,
  some, List, [], ◌∷◌, if◌then◌else◌, ◌≡◌, refl,
}
use dbstore.Mcp.Errors.{
  ToolError, Result, ok, err, query_required, nul_byte, several_statements, not_select, select_into,
}

abbrev pub codes : String → List ℕ
codes String.[] = []
codes (String.◌∷◌ c s) = code c ∷ codes s

-- `unicode.IsSpace`
unfoldable pub is_space : ℕ → Bool
is_space r =
    (leb 9 r && leb r 13)
    || r == 32
    || r == 0x85
    || r == 0xa0
    || r == 0x1680
    || (leb 0x2000 r && leb r 0x200a)
    || r == 0x2028
    || r == 0x2029
    || r == 0x202f
    || r == 0x205f
    || r == 0x3000

unfoldable pub trim_left : List ℕ → List ℕ
trim_left [] = []
trim_left (x ∷ xs) = if is_space x then trim_left xs else x ∷ xs

-- A space in front of what is all space goes too.
abbrev cons_unless_blank : ℕ → List ℕ → List ℕ
cons_unless_blank x [] = if is_space x then [] else x ∷ []
cons_unless_blank x (y ∷ ys) = x ∷ y ∷ ys

unfoldable pub trim_right : List ℕ → List ℕ
trim_right [] = []
trim_right (x ∷ xs) = cons_unless_blank x (trim_right xs)

-- `strings.TrimSpace`
unfoldable pub trim_space : List ℕ → List ℕ
unfolding trim_left trim_right
trim_space s = trim_right (trim_left s)

-- `strings.TrimSuffix(s, ";")`
unfoldable pub trim_semicolon : List ℕ → List ℕ
trim_semicolon [] = []
trim_semicolon (x ∷ []) = if x == b';' then [] else x ∷ []
trim_semicolon (x ∷ y ∷ r) = x ∷ trim_semicolon (y ∷ r)

unfoldable pub contains : ℕ → List ℕ → Bool
contains c [] = false
contains c (x ∷ xs) = x == c || contains c xs

until_space : List ℕ → List ℕ
until_space [] = []
until_space (x ∷ xs) = if is_space x then [] else x ∷ until_space xs

abbrev nonempty : List ℕ → Option (List ℕ)
nonempty [] = none
nonempty (x ∷ xs) = some (x ∷ xs)

-- `strings.Fields(s)[0]`, if there is a field
unfoldable pub first_field : List ℕ → Option (List ℕ)
unfolding until_space trim_left
first_field s = nonempty (until_space (trim_left s))

-- Simple folding to the upper case of an ASCII letter; U+017F folds to S.
fold_upper : ℕ → ℕ
fold_upper r = if leb b'a' r && leb r b'z' then r - 32 else if r == 0x17f then b'S' else r

unfoldable pub equal_fold : List ℕ → List ℕ → Bool
unfolding fold_upper
equal_fold [] [] = true
equal_fold (x ∷ xs) (y ∷ ys) = fold_upper x == fold_upper y && equal_fold xs ys
equal_fold _ _ = false

abbrev pub is_select : Option (List ℕ) → Bool
is_select none = false
is_select (some w) = equal_fold w (codes "SELECT")

-- `\w`, by which `\b` is defined
is_word : ℕ → Bool
is_word r =
    (leb b'0' r && leb r b'9')
    || (leb b'A' r && leb r b'Z')
    || (leb b'a' r && leb r b'z')
    || r == b'_'

abbrev letter : ℕ → ℕ → Bool
letter upper r = r == upper || r == upper + 32

abbrev ends_word : List ℕ → Bool
ends_word [] = true
ends_word (x ∷ xs) = not (is_word x)

abbrev starts_into : List ℕ → Bool
starts_into (i ∷ n ∷ t ∷ o ∷ rest) =
    letter b'I' i && letter b'N' n && letter b'T' t && letter b'O' o && ends_word rest
starts_into _ = false

-- Does the pattern match, `inside` a word or not?
unfoldable pub has_into : Bool → List ℕ → Bool
unfolding is_word
has_into inside [] = false
has_into inside (x ∷ xs) = (not inside && starts_into (x ∷ xs)) || has_into (is_word x) xs

abbrev is_empty : List ℕ → Bool
is_empty [] = true
is_empty (x ∷ xs) = false

-- The tests on the query without its trailing semicolon.
validate_statement : List ℕ → Result (List ℕ)
validate_statement s =
    if contains b';' s
    then err several_statements
    else if not (is_select (first_field s))
    then err not_select
    else if has_into false s
    then err select_into
    else ok s

unfoldable pub validate_read_only_query : List ℕ → Result (List ℕ)
unfolding validate_statement
validate_read_only_query query =
    let s = trim_space query in
    if is_empty s
    then err query_required
    else if contains 0 s
    then err nul_byte
    else validate_statement (trim_space (trim_semicolon s))
