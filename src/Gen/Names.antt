-- ===== src/Gen/Names.antt =====
-- The names that cmd/dbstore-gen/generator.go makes. The case mappings of package unicode are arguments.
use Prim.Native.Char.{Char}
use dbstore.Common.{String, str_eq, Option, none, some, if◌then◌else◌, before_suffix}

pub record Cases : Type 0 where
  pub to_upper : Char → Char
  pub to_lower : Char → Char

abbrev with_first : (Char → Char) → String → String
with_first f String.[] = ""
with_first f (String.◌∷◌ c s) = String.◌∷◌ (f c) s

unfoldable pub lower_first : Cases → String → String
lower_first cases s = with_first cases.to_lower s

unfoldable pub upper_first : Cases → String → String
upper_first cases s = with_first cases.to_upper s

abbrev suffix : String
suffix = "Repository"

abbrev base_or : String → Option String → String
base_or name none = name
base_or name (some base) = if str_eq base "" then name else base

-- `baseName`
unfoldable pub base_name : String → String
unfolding before_suffix
base_name name = base_or name (before_suffix suffix name)
