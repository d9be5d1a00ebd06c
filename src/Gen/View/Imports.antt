-- ===== src/Gen/View/Imports.antt =====
-- The aliases of the files that cmd/dbstore-gen/generator.go writes.
use dbstore.Common.{
  ◌≡◌, ◌≢◌, refl, sym, ap, ◌∙◌, String, str_eq, eq_iff, some, List, [], ◌∷◌, lookup, insert,
  lookup-insert, ◌||◌, if_true, if_false, arith, All, All-weaken, All-insert, All-lookup,
  Bool-cases, inl, inr, sort_by, All-sort_by,
}
use dbstore.Gen.Config.{member}
use dbstore.Gen.Alias.{Used}
use dbstore.Gen.Errors.{Result, ok, ◌>>=◌}
use dbstore.Gen.Names.{Cases, base_name}
use dbstore.Gen.Parser.{Aliases, reserved, dbstore_path, Decl, Loaded, Interface, parse_interface}
use dbstore.Gen.Parser.Kept.{
  Extends, StandsFor, AreInverse, Leads, Succeeds, stays, Leads-trans, alias_for-Succeeds,
  parse_interface-Owned,
}
use dbstore.Gen.View.{
  Backend, BackendView, ImportView, GenView, take_imports, fixed_imports, backend_view,
  backend_views, other_paths, import_views, itself, view_of, build_view,
}

Extends-insert :
    (u owner : Used) (alias path : String)
    → Extends u owner
    → lookup alias owner ≡ some path
    → Extends u (insert alias path u) × Extends (insert alias path u) owner
Extends-insert u owner alias path within owned = (
  λ a p h. ground (arith, lookup-insert alias a path u, eq_iff alias a, within a p h, h, owned),
  λ a p h. ground (arith, lookup-insert alias a path u, eq_iff alias a, within a p, h, owned),
)

take_imports-Leads :
    (owner : Used) (imports : List (String × String)) (a : Aliases)
    → Extends a.used owner
    → All (StandsFor owner) imports
    → Leads a (take_imports imports a)
unfolding take_imports
take_imports-Leads owner [] a within owned = stays a
take_imports-Leads owner ((path, alias) ∷ rest) a within owned =
    let (before, after) = Extends-insert a.used owner alias path within owned.0 in
    let used = insert alias path a.used in
    let imports = insert path alias a.imports in
    let inverse : AreInverse a → All (StandsFor used) imports = λ h.
      All-insert (StandsFor used) path alias a.imports
        (lookup-insert alias alias path a.used ∙ ground (arith, eq_iff alias alias))
        (All-weaken (StandsFor a.used) (StandsFor used) a.imports (λ e s. before e.1 e.0 s) h) in
    Leads-trans a (record { imports = imports; used = used }) _ (before, inverse)
      (take_imports-Leads owner rest (record { imports = imports; used = used }) after owned.1)

backend_views-Succeeds :
    (cases : Cases) (base interface : String) (seen : List String) (bs : List Backend) (a : Aliases)
    → Succeeds a (backend_views cases base interface seen bs a)
unfolding backend_views
backend_views-Succeeds cases base interface seen [] a = (([], a), refl, stays a)
backend_views-Succeeds cases base interface seen (b ∷ bs) a =
    elim (Bool-cases (member b.name seen)) [
      | inl again ↦
          let (x, done, leads) = backend_views-Succeeds cases base interface seen bs a in
          (x, if_true _ _ again ∙ done, leads)
      | inr new ↦
          let (r, named, first) = alias_for-Succeeds b.pkg_name b.import_path a in
          let (q, done, later) =
            backend_views-Succeeds cases base interface (b.name ∷ seen) bs r.1 in
          (
            (backend_view cases base interface b r.0 ∷ q.0, q.1),
            if_false _ _ new ∙ rw (named, done) refl,
            Leads-trans a r.1 q.1 first later,
          )
    ]

-- Is the text a key?
abbrev IsKey : List (String × String) → String → Type 0
IsKey m k = (v : String) × (lookup k m ≡ some v)

IsKey-cons : (j w k : String) (m : List (String × String)) → IsKey m k → IsKey ((j, w) ∷ m) k
IsKey-cons j w k m (v, found) = elim (Bool-cases (str_eq j k)) [
  | inl same ↦ (w, rw same refl)
  | inr other ↦ (v, rw other found)
]

entries-AreKeys : (m : List (String × String)) → All (λ e. IsKey m e.0) m
entries-AreKeys [] = tt
entries-AreKeys ((j, w) ∷ m) = (
  (w, ground (arith, eq_iff j j)),
  All-weaken _ (λ e. IsKey ((j, w) ∷ m) e.0) m (λ e h. IsKey-cons j w e.0 m h) (entries-AreKeys m),
)

-- A path that the template does not import itself.
abbrev IsOther : String → Type 0
IsOther path = (path ≢ "context") × (path ≢ dbstore_path)

other_paths-All :
    (P : String → Type 0) (imports : List (String × String))
    → All (λ e. P e.0) imports
    → All (λ path. IsOther path × P path) (other_paths imports)
unfolding other_paths
other_paths-All P [] h = tt
other_paths-All P ((path, alias) ∷ rest) h =
    elim (Bool-cases (str_eq path "context" || str_eq path dbstore_path)) [
      | inl own ↦ rw own (other_paths-All P rest h.1)
      | inr other ↦ rw other (
        (ground (arith, other, eq_iff path "context", eq_iff path dbstore_path), h.0),
        other_paths-All P rest h.1,
      )
    ]

-- An import line whose alias stands for its path.
abbrev IsOwned : Used → ImportView → Type 0
IsOwned u v = IsOther v.path × (lookup v.alias u ≡ some v.path)

import_views-AreOwned :
    (u : Used) (imports : List (String × String)) (paths : List String)
    → All (StandsFor u) imports
    → All (λ path. IsOther path × IsKey imports path) paths
    → All (IsOwned u) (import_views imports paths)
unfolding import_views
import_views-AreOwned u imports [] owned h = tt
import_views-AreOwned u imports (path ∷ paths) owned ((other, (alias, found)), h) = (
  (other, rw found (All-lookup (StandsFor u) path alias imports found owned)),
  import_views-AreOwned u imports paths owned h,
)

-- Import lines that compile: no alias is one of the template's own, and no two paths share one.
abbrev pub AreDistinct : List ImportView → Type 0
AreDistinct vs =
    All
      (λ x.
        (x.alias ≢ "context")
        × (x.alias ≢ "dbstore")
        × All (λ y. x.alias ≡ y.alias → x.path ≡ y.path) vs)
      vs

IsOwned-IsDistinct :
    (u : Used) (x y : ImportView) → IsOwned u x → IsOwned u y → x.alias ≡ y.alias → x.path ≡ y.path
IsOwned-IsDistinct u x y h k same =
    let both : some x.path ≡ some y.path = sym h.1 ∙ (ap (λ a. lookup a u) same ∙ k.1) in cc

-- An alias of the template stands for a path that the lines leave out.
not_reserved :
    (u : Used) (x : ImportView) (alias path : String)
    → lookup alias u ≡ some path
    → x.path ≢ path
    → IsOwned u x
    → x.alias ≢ alias
not_reserved u x alias path kept other h same =
    let both : some x.path ≡ some path = sym h.1 ∙ (ap (λ a. lookup a u) same ∙ kept) in
    let paths : x.path ≡ path = cc in other paths

AreOwned-AreDistinct :
    (u : Used) (vs : List ImportView) → Extends reserved u → All (IsOwned u) vs → AreDistinct vs
AreOwned-AreDistinct u vs kept owned =
    All-weaken (IsOwned u) _ vs
      (λ x h. (
        not_reserved u x "context" "context" (kept "context" "context" refl) h.0.0 h,
        not_reserved u x "dbstore" dbstore_path (kept "dbstore" dbstore_path refl) h.0.1 h,
        All-weaken (IsOwned u) (λ y. x.alias ≡ y.alias → x.path ≡ y.path) vs
            (λ y. IsOwned-IsDistinct u x y h) owned,
      ))
      owned

-- A view whose imports are distinct.
abbrev pub Imports : Result GenView → Type 0
Imports r = (v : GenView) × (r ≡ ok v) × AreDistinct v.imports

views-AreDistinct :
    (a : Aliases)
    → Leads fixed_imports a
    → AreDistinct (import_views a.imports (sort_by itself (other_paths a.imports)))
views-AreDistinct a leads = AreOwned-AreDistinct a.used _ leads.0 (
    import_views-AreOwned a.used a.imports _ (leads.1 (refl, tt)) (
      All-sort_by itself _ (other_paths a.imports)
        (other_paths-All (IsKey a.imports) a.imports (entries-AreKeys a.imports))))

-- For an interface that was parsed, the view of the generated file is made, whatever the backends are: the
-- search for an alias always ends. Of its import lines none has an alias that the template itself uses, and
-- two that have the same alias have the same path.
pub build_view-Imports :
    (cases : Cases) (name : String) (parsed : Result (List Decl)) (loaded : Result Loaded)
    (i : Interface) (backends : List Backend)
    → parse_interface name parsed loaded ≡ ok i
    → Imports (build_view cases i backends)
unfolding build_view view_of
build_view-Imports cases name parsed loaded i backends h =
    let (owner, kept, owned) = parse_interface-Owned name parsed loaded i h in
    let taken = take_imports i.imports fixed_imports in
    let (r, done, leads) =
      backend_views-Succeeds cases (base_name i.name) i.name [] backends taken in
    (
      view_of cases i r.0 r.1.imports,
      ap (λ s. s >>= λ (q : List BackendView × Aliases). ok (view_of cases i q.0 q.1.imports)) done,
      views-AreDistinct r.1 (
          Leads-trans fixed_imports taken r.1
            (take_imports-Leads owner i.imports fixed_imports kept owned) leads),
    )
