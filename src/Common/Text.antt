-- ===== src/Common/Text.antt =====
-- What the program uses of package strings on whole texts.
use Prim.Native.Char.{Char}
use Prim.Native.String
use Prim.Native.String.{String}
use Prim.Native.String.append
use mathlib.Core.Path.{◌≡◌, refl, ap, ◌∙◌}
use mathlib.Core.Bool.{Bool, true, false}
use mathlib.Core.Option.{Option, none, some}
use native.Mathlib.Omega.{arith}
use text.Mathlib.TextEquality.{eq_iff}
use dbstore.Common.Tests.{str_eq, if◌then◌else◌, if_true}

infixr 80 ◌<>◌
abbrev pub ◌<>◌ : String → String → String
s <> t = String.◌++◌ s t

abbrev cons_some : Char → Option String → Option String
cons_some c none = none
cons_some c (some s) = some (String.◌∷◌ c s)

-- What is before the suffix, if the text ends in it.
unfoldable pub before_suffix : String → String → Option String
before_suffix end String.[] = if str_eq "" end then some "" else none
before_suffix end (String.◌∷◌ c s) =
    let later = before_suffix end s in
    if str_eq (String.◌∷◌ c s) end then some "" else cons_some c later

abbrev is_found : Option String → Bool
is_found none = false
is_found (some s) = true

-- `strings.HasSuffix`
unfoldable pub has_suffix : String → String → Bool
unfolding before_suffix
has_suffix s end = is_found (before_suffix end s)

abbrev or_whole : String → Option String → String
or_whole s none = s
or_whole s (some before) = before

-- `strings.TrimSuffix`
unfoldable pub trim_suffix : String → String → String
unfolding before_suffix
trim_suffix s end = or_whole s (before_suffix end s)

is_found-cons_some :
    (c : Char) (o : Option String) → is_found o ≡ true → is_found (cons_some c o) ≡ true
is_found-cons_some c none h = cc
is_found-cons_some c (some s) h = refl

found-or :
    (b : Bool) (o : Option String) → is_found o ≡ true → is_found (if b then some "" else o) ≡ true
found-or true o h = refl
found-or false o h = h

has_suffix_whole : (end : String) → has_suffix end end ≡ true
unfolding has_suffix before_suffix
has_suffix_whole String.[] = refl
has_suffix_whole (String.◌∷◌ c s) = ap is_found (
    if_true (some "") (cons_some c (before_suffix (String.◌∷◌ c s) s))
      (ground (arith, eq_iff (String.◌∷◌ c s) (String.◌∷◌ c s))))

-- A text with an ending ends in it.
pub has_suffix-append : (s end : String) → has_suffix (s <> end) end ≡ true
unfolding has_suffix before_suffix
has_suffix-append String.[] end = ap (λ t. has_suffix t end) (append.nil end) ∙ has_suffix_whole end
has_suffix-append (String.◌∷◌ c s) end =
    ap (λ t. has_suffix t end) (append.cons c s end)
    ∙ found-or (str_eq (String.◌∷◌ c (s <> end)) end) (cons_some c (before_suffix end (s <> end)))
        (is_found-cons_some c (before_suffix end (s <> end)) (has_suffix-append s end))
