-- ===== src/Gen/Spec.antt =====
-- `parseBackendSpec` of cmd/dbstore-gen/main.go.
use Prim.Native.Char.{code}
use Prim.Native.String.append
use dbstore.Common.{
  ◌<>◌, ◌==◌, ◌≡◌, ◌≢◌, refl, ap, ◌∙◌, Bool, true, false, String, str_eq, eq_iff, none, some, List,
  [], ◌∷◌, lookup, if◌then◌else◌, arith,
}
use dbstore.Gen.Errors.{spec_without_name, spec_without_adapter, Result, ok, err}

pub record Cut : Type 0 where
  pub before : String
  pub after : String
  pub found : Bool

-- `strings.Cut(s, ":")`
unfoldable pub cut_colon : String → Cut
cut_colon String.[] = record { before = ""; after = ""; found = false }
cut_colon (String.◌∷◌ c s) =
    let r = cut_colon s in
    if code c == b':'
    then record { before = ""; after = s; found = true }
    else record r { before = String.◌∷◌ c r.before }

abbrev pub sqlx_path : String
sqlx_path = "github.com/loykin/dbstore/adapters/sqlx"

abbrev pub builtin_adapters : List (String × String)
builtin_adapters =
    ("sqlite", sqlx_path)
    ∷ ("mysql", sqlx_path)
    ∷ ("postgres", sqlx_path)
    ∷ ("sqlx", sqlx_path)
    ∷ ("rest", "github.com/loykin/dbstore/adapters/rest")
    ∷ ("opensearch", "github.com/loykin/dbstore/adapters/opensearch")
    ∷ ("elasticsearch", "github.com/loykin/dbstore/adapters/elasticsearch")
    ∷ []

-- The import path of an adapter, which may be given by its short name.
unfoldable pub import_path : String → String
import_path adapter = elim (lookup adapter builtin_adapters) [ none ↦ adapter | some path ↦ path ]

unfoldable pub parse_backend_spec : String → Result (String × String)
unfolding import_path
parse_backend_spec spec =
    let r = cut_colon spec in
    let adapter = if r.found then r.after else r.before in
    if str_eq r.before ""
    then err (spec_without_name spec)
    else if str_eq adapter ""
    then err (spec_without_adapter spec)
    else ok (r.before, import_path adapter)

-- A backend of a configuration, as `run` writes it.
unfoldable pub spec_of : String → String → String
spec_of name adapter = name <> (":" <> adapter)

-- Has the text no colon?
abbrev pub IsPlain : String → Type 0
IsPlain String.[] = Unit {0}
IsPlain (String.◌∷◌ c s) = ((code c == b':') ≡ false) × IsPlain s

cut_colon-append :
    (name adapter : String)
    → IsPlain name
    → cut_colon (name <> String.◌∷◌ ":" adapter)
      ≡ record { before = name; after = adapter; found = true }
unfolding cut_colon
cut_colon-append String.[] adapter p = rw append.nil refl
cut_colon-append (String.◌∷◌ c s) adapter p =
    rw append.cons (ground (arith, p.0, cut_colon-append s adapter p.1))

cut_colon-plain :
    (name : String)
    → IsPlain name
    → cut_colon name ≡ record { before = name; after = ""; found = false }
unfolding cut_colon
cut_colon-plain String.[] p = refl
cut_colon-plain (String.◌∷◌ c s) p = ground (arith, cut_colon-plain s p.1)

cut_colon-spec_of :
    (name adapter : String)
    → IsPlain name
    → cut_colon (spec_of name adapter) ≡ record { before = name; after = adapter; found = true }
unfolding spec_of
cut_colon-spec_of name adapter p =
    ap (λ t. cut_colon (name <> t))
      (append.cons ":" "" adapter ∙ ap (String.◌∷◌ ":") (append.nil adapter))
    ∙ cut_colon-append name adapter p

-- A name without a colon and an adapter, neither empty, written as `name:adapter`, are read back, with a
-- short name of an adapter replaced by its import path; and a name alone is its own adapter.
pub parse_backend_spec-spec_of :
    (name adapter : String)
    → IsPlain name
    → name ≢ ""
    → adapter ≢ ""
    → (parse_backend_spec (spec_of name adapter) ≡ ok (name, import_path adapter))
      × (parse_backend_spec name ≡ ok (name, import_path name))
unfolding parse_backend_spec
parse_backend_spec-spec_of name adapter plain named adapted = (
  ground (arith, cut_colon-spec_of name adapter plain, eq_iff name "", eq_iff adapter ""),
  ground (arith, cut_colon-plain name plain, eq_iff name ""),
)
