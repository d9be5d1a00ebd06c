-- ===== src/Gen/Parser/Kept.antt =====
-- What cmd/dbstore-gen/parser.go keeps true of its two maps while it writes types.
use dbstore.Common.{
  ℕ, suc, ◌≡◌, ◌≢◌, refl, sym, ap, subst, ◌∙◌, Bool, true, false, String, str_eq, eq_iff, Option,
  none, some, List, [], ◌∷◌, lookup, insert, if◌then◌else◌, ◌&&◌, All, All-weaken, All-insert,
  Option-cases, Bool-cases, inl, inr, sort_by,
}
use dbstore.Gen.Alias.{Used, unique_import_alias, Assigned, unique_import_alias-Assigned}
use dbstore.Gen.Config.{member}
use dbstore.Gen.Errors.{GenError, endless, Result, ok, err, ◌>>=◌}
use dbstore.Gen.Parser.{
  Package, Piece, text, named, GoType, slice, plain, Aliases, assigned, alias_for, qualify,
  pieces_string, type_string, Method, Signature, elem_of, is_last, parse_params, parse_results,
  parse_after_context, parse_parameters, parse_method, parse_methods, reserved, Loaded, Interface,
  interface_of, Decl, interface_names, parse_interface, method_name,
}

-- Does every alias stand for the same path as before?
abbrev pub Extends : Used → Used → Type 0
Extends u v = (alias path : String) → lookup alias u ≡ some path → lookup alias v ≡ some path

-- Does the alias of the entry stand for its path?
abbrev pub StandsFor : Used → String × String → Type 0
StandsFor u (path, alias) = lookup alias u ≡ some path

-- Is the one map the other's inverse?
abbrev pub AreInverse : Aliases → Type 0
AreInverse a = All (StandsFor a.used) a.imports

abbrev pub Leads : Aliases → Aliases → Type 0
Leads a b = Extends a.used b.used × (AreInverse a → AreInverse b)

-- Maps that lead on, or an error other than a search without end.
abbrev pub Goes : {X : Type 0} → Aliases → Result (X × Aliases) → Type 0
Goes a (err e) = e ≢ endless
Goes a (ok r) = Leads a r.1

-- Maps that lead on, and no error.
abbrev pub Succeeds : {X : Type 0} → Aliases → Result (X × Aliases) → Type 0
Succeeds {X = X} a r = (x : X × Aliases) × (r ≡ ok x) × Leads a x.1

pub stays : (a : Aliases) → Leads a a
stays a = (λ alias path h. h, λ h. h)

pub Leads-trans : (a b c : Aliases) → Leads a b → Leads b c → Leads a c
Leads-trans a b c l m = (λ alias path h. m.0 alias path (l.0 alias path h), λ h. m.1 (l.1 h))

onward : {X : Type 0} (a b : Aliases) (r : Result (X × Aliases)) → Leads a b → Goes b r → Goes a r
onward a b (err e) l g = g
onward a b (ok r) l g = Leads-trans a b r.1 l g

Goes-bind :
    {X Y : Type 0} (a : Aliases) (r : Result (X × Aliases)) (f : X × Aliases → Result (Y × Aliases))
    → Goes a r
    → ((x : X × Aliases) → Goes x.1 (f x))
    → Goes a (r >>= f)
Goes-bind a (err e) f g h = g
Goes-bind a (ok x) f g h = onward a x.1 (f x) g (h x)

Extends-Assigned :
    (path : String) (u : Used) (r : String × Used) → Assigned path u r → Extends u r.1
Extends-Assigned path u r new alias p h = elim (Bool-cases (str_eq r.0 alias)) [
  | inl same ↦
      let here : r.0 ≡ alias = (eq_iff r.0 alias).0 same in
      let path_same : p ≡ path = new.unheld p (ap (λ k. lookup k u) here ∙ h) in cc
  | inr other ↦ new.others alias other ∙ h
]

Assigned-Leads :
    (path : String) (a : Aliases) (r : String × Used)
    → Assigned path a.used r
    → Leads a (record { imports = insert path r.0 a.imports; used = r.1 })
Assigned-Leads path a r new = (
  Extends-Assigned path a.used r new,
  λ inverse. All-insert (StandsFor r.1) path r.0 a.imports new.assigned (
      All-weaken (StandsFor a.used) (StandsFor r.1) a.imports
        (λ e h. Extends-Assigned path a.used r new e.1 e.0 h) inverse),
)

alias_for-new :
    (name path : String) (a : Aliases) (r : String × Used)
    → lookup path a.imports ≡ none
    → unique_import_alias name path a.used ≡ some r
    → alias_for name path a ≡ ok (r.0, record { imports = insert path r.0 a.imports; used = r.1 })
unfolding alias_for
alias_for-new name path a (alias, used) free found =
    rw (free, alias_for) (ap (assigned path a.imports) found)

pub alias_for-Succeeds : (name path : String) (a : Aliases) → Succeeds a (alias_for name path a)
unfolding alias_for
alias_for-Succeeds name path a = elim (Option-cases (lookup path a.imports)) [
  | inr (alias, held) ↦ ((alias, a), rw (held, alias_for) refl, stays a)
  | inl free ↦
      let (r, found, new) = unique_import_alias-Assigned name path a.used in
      (_, alias_for-new name path a r free found, Assigned-Leads path a r new)
]

alias_for-Goes : (name path : String) (a : Aliases) → Goes a (alias_for name path a)
alias_for-Goes name path a =
    let (r, done, leads) = alias_for-Succeeds name path a in subst (Goes a) (sym done) leads

qualify-Goes : (p : Option Package) (a : Aliases) → Goes a (qualify p a)
unfolding qualify
qualify-Goes none a = stays a
qualify-Goes (some p) a =
    Goes-bind a (alias_for p.name p.path a) _ (alias_for-Goes p.name p.path a) (λ r. stays r.1)

pieces_string-Goes : (ps : List Piece) (a : Aliases) → Goes a (pieces_string ps a)
unfolding pieces_string
pieces_string-Goes [] a = stays a
pieces_string-Goes (text t ∷ ps) a =
    Goes-bind a (pieces_string ps a) _ (pieces_string-Goes ps a) (λ r. stays r.1)
pieces_string-Goes (named p n ∷ ps) a =
    Goes-bind a (qualify p a) _ (qualify-Goes p a)
      (λ q. Goes-bind q.1 (pieces_string ps q.1) _ (pieces_string-Goes ps q.1) (λ r. stays r.1))

type_string-Goes : (t : GoType) (a : Aliases) → Goes a (type_string t a)
unfolding type_string
type_string-Goes (slice t) a =
    Goes-bind a (type_string t a) _ (type_string-Goes t a) (λ r. stays r.1)
type_string-Goes (plain ps) a = pieces_string-Goes ps a

elem_of-Goes :
    {Y : Type 0} (b : Bool) (t : GoType) (a : Aliases) (f : GoType → Result (Y × Aliases))
    → ((e : GoType) → Goes a (f e))
    → Goes a (elem_of b t >>= f)
elem_of-Goes false t a f h = h t
elem_of-Goes true (slice t) a f h = h t
elem_of-Goes true (plain ps) a f h = λ h. cc

parse_params-Goes :
    (i : ℕ) (variadic : Bool) (ps : List (String × GoType)) (a : Aliases)
    → Goes a (parse_params i variadic ps a)
unfolding parse_params
parse_params-Goes i variadic [] a = stays a
parse_params-Goes i variadic ((name, t) ∷ ps) a = elem_of-Goes (variadic && is_last ps) t a _ (λ e.
    Goes-bind a (type_string e a) _ (type_string-Goes e a) (λ r.
      Goes-bind r.1 (parse_params (suc i) variadic ps r.1) _
        (parse_params-Goes (suc i) variadic ps r.1) (λ q. stays q.1)))

Goes-choice :
    {X : Type 0} (b : Bool) (a : Aliases) (r s : Result (X × Aliases))
    → Goes a r
    → Goes a s
    → Goes a (if b then r else s)
Goes-choice true a r s g h = g
Goes-choice false a r s g h = h

parse_results-Goes : (ts : List GoType) (a : Aliases) → Goes a (parse_results ts a)
unfolding parse_results
parse_results-Goes [] a = λ h. cc
parse_results-Goes (t ∷ []) a =
    Goes-bind a (type_string t a) _ (type_string-Goes t a)
      (λ r. Goes-choice (str_eq r.0 "error") r.1 (ok (none, r.1)) _ (stays r.1) (λ h. cc))
parse_results-Goes (v ∷ t ∷ []) a = Goes-bind a (type_string t a) _ (type_string-Goes t a) (λ r.
    Goes-choice (str_eq r.0 "error") r.1 _ _
      (Goes-bind r.1 (type_string v r.1) _ (type_string-Goes v r.1) (λ q. stays q.1)) (λ h. cc))
parse_results-Goes (v ∷ t ∷ u ∷ ts) a = λ h. cc

parse_after_context-Goes :
    (name : String) (variadic : Bool) (ps : List (String × GoType)) (results : List GoType)
    (a : Aliases)
    → Goes a (parse_after_context name variadic ps results a)
unfolding parse_after_context
parse_after_context-Goes name variadic ps results a =
    Goes-bind a (parse_params 1 variadic ps a) _ (parse_params-Goes 1 variadic ps a) (λ q.
      Goes-bind q.1 (parse_results results q.1) _ (parse_results-Goes results q.1) (λ r. stays r.1))

parse_parameters-Goes :
    (name : String) (variadic : Bool) (results : List GoType) (ps : List (String × GoType))
    (a : Aliases)
    → Goes a (parse_parameters name variadic results ps a)
unfolding parse_parameters
parse_parameters-Goes name variadic results [] a = λ h. cc
parse_parameters-Goes name variadic results ((_, t) ∷ ps) a =
    Goes-bind a (type_string t a) _ (type_string-Goes t a) (λ r.
      Goes-choice (str_eq r.0 "context.Context") r.1 _ _
        (parse_after_context-Goes name variadic ps results r.1) (λ h. cc))

pub parse_methods-Goes :
    (ms : List (String × Signature)) (a : Aliases) → Goes a (parse_methods ms a)
unfolding parse_methods parse_method
parse_methods-Goes [] a = stays a
parse_methods-Goes ((name, sig) ∷ ms) a =
    Goes-bind a (parse_method name sig a) _
      (parse_parameters-Goes name sig.variadic sig.results sig.params a)
      (λ m. Goes-bind m.1 (parse_methods ms m.1) _ (parse_methods-Goes ms m.1) (λ r. stays r.1))

-- Aliases of which each has one path, with the two of the template, such that those of the list stand for
-- theirs.
abbrev pub Owned : List (String × String) → Type 0
Owned imports = (u : Used) × Extends reserved u × All (StandsFor u) imports

if_ok :
    {A : Type 0} (b : Bool) (r : Result A) (e : GenError) {a : A}
    → (if b then r else err e) ≡ ok a
    → r ≡ ok a
if_ok true r e h = h
if_ok false r e h = cc

methods-Owned :
    (name : String) (l : Loaded) (i : Interface) (r : Result (List Method × Aliases))
    → Goes (record { imports = []; used = reserved }) r
    → (r >>= λ (m : List Method × Aliases). ok (interface_of name l m)) ≡ ok i
    → Owned i.imports
methods-Owned name l i (err e) g h = cc
methods-Owned name l i (ok r) g h =
    let whole : interface_of name l r ≡ i = cc in
    let same : r.1.imports ≡ i.imports = ap (λ x. x.imports) whole in
    (r.1.used, g.0, subst (All (StandsFor r.1.used)) same (g.1 tt))

pub parse_interface-Owned :
    (name : String) (parsed : Result (List Decl)) (loaded : Result Loaded) (i : Interface)
    → parse_interface name parsed loaded ≡ ok i
    → Owned i.imports
unfolding parse_interface
parse_interface-Owned name (err e) loaded i h = cc
parse_interface-Owned name (ok decls) (err e) i h =
    let accepted : err e ≡ ok i = if_ok (member name (interface_names decls)) (err e) _ h in cc
parse_interface-Owned name (ok decls) (ok l) i h =
    methods-Owned name l i _ (parse_methods-Goes (sort_by method_name l.methods) _)
      (if_ok (member name (interface_names decls)) _ _ h)
