-- ===== src/Gen/Alias.antt =====
-- `uniqueImportAlias` of cmd/dbstore-gen/parser.go.
use text.Mathlib.TextLemmas.{append_cancel_left}
use dbstore.Common.{
  ◌<>◌, ℕ, zero, suc, ◌<◌, ◌≡◌, ◌≢◌, refl, ap, subst, ◌∙◌, Bool, true, false, not, String, str_eq,
  eq_iff, Option, none, some, List, length, lookup, insert, delete, lookup-insert,
  lookup-delete_other, length-delete_found, if◌then◌else◌, arith, decimal, decimal_inj,
  Option-cases, Bool-cases, inl, inr, ◌⊎◌,
}

-- Aliases in use, each with its path.
abbrev pub Used : Type 0
Used = List (String × String)

-- Does the alias stand for another path?
abbrev taken : String → String → Used → Bool
taken alias path used = elim (lookup alias used) [
  | none ↦ false
  | some current ↦ not (str_eq current path)
]

abbrev numbered : String → ℕ → String
numbered preferred i = preferred <> decimal i

-- The loop from `i` on, for at most so many rounds.
search : ℕ → ℕ → String → String → Used → Option String
search zero i preferred path used = none
search (suc rounds) i preferred path used =
    let later = search rounds (suc i) preferred path used in
    if taken (numbered preferred i) path used then later else some (numbered preferred i)

abbrev with_alias : String → Used → Option String → Option (String × Used)
with_alias path used none = none
with_alias path used (some alias) = some (alias, insert alias path used)

-- The alias, and the aliases in use then; `none` would be a loop of more rounds than there are aliases.
unfoldable pub unique_import_alias : String → String → Used → Option (String × Used)
unfolding search
unique_import_alias preferred path used = with_alias path used (
    if taken preferred path used
    then search (suc (length used)) 2 preferred path used
    else some preferred)

numbered_differ :
    (preferred : String) (i j : ℕ)
    → i < j
    → str_eq (numbered preferred i) (numbered preferred j) ≡ false
numbered_differ preferred i j lt =
    elim (Bool-cases (str_eq (numbered preferred i) (numbered preferred j))) [
      | inl same ↦
          let one : i ≡ j = decimal_inj i j (
            append_cancel_left preferred (decimal i) (decimal j)
              ((eq_iff (numbered preferred i) (numbered preferred j)).0 same)) in
          absurd (omega (arith, one, lt))
      | inr other ↦ other
    ]

-- An alias below `j` plays no part in a search from `j` on.
search-delete :
    (rounds i j : ℕ) (preferred path : String) (used : Used)
    → i < j
    → search rounds j preferred path (delete (numbered preferred i) used)
      ≡ search rounds j preferred path used
unfolding search
search-delete zero i j preferred path used lt = refl
search-delete (suc rounds) i j preferred path used lt = ground (
  arith,
  lookup-delete_other (numbered preferred i) (numbered preferred j) used
      (numbered_differ preferred i j lt),
  search-delete rounds i (suc j) preferred path used,
)

if_none :
    {A : Type 0} (b : Bool) (x : Option A) (a : A) → (if b then x else some a) ≡ none → x ≡ none
if_none true x a h = h
if_none false x a h = cc

if_some :
    {A : Type 0} (b : Bool) (x : Option A) (a : A) {c : A}
    → (if b then x else some a) ≡ some c
    → (x ≡ some c) ⊎ ((b ≡ false) × (a ≡ c))
if_some true x a h = inl h
if_some false x a h = inr (refl, ground (arith, h))

-- A search of more rounds than there are aliases in use ends.
search_ends :
    (n i : ℕ) (preferred path : String) (used : Used)
    → length used ≡ n
    → search (suc n) i preferred path used ≢ none
unfolding search
search_ends zero i preferred path used size stuck =
    elim (Option-cases (lookup (numbered preferred i) used)) [
      | inl free ↦ ground (arith, free, stuck)
      | inr (current, held) ↦
          ground (arith, size, length-delete_found (numbered preferred i) current used held)
    ]
search_ends (suc n) i preferred path used size stuck =
    elim (Option-cases (lookup (numbered preferred i) used)) [
      | inl free ↦ ground (arith, free, stuck)
      | inr (current, held) ↦
          search_ends n (suc i) preferred path (delete (numbered preferred i) used)
            (omega (arith, size, length-delete_found (numbered preferred i) current used held))
            (search-delete (suc n) i (suc i) preferred path used (omega arith)
              ∙ if_none (taken (numbered preferred i) path used) _ _ stuck)
    ]

search-free :
    (rounds i : ℕ) (preferred path : String) (used : Used) {alias : String}
    → search rounds i preferred path used ≡ some alias
    → taken alias path used ≡ false
unfolding search
search-free zero i preferred path used h = cc
search-free (suc rounds) i preferred path used h =
    elim (if_some (taken (numbered preferred i) path used) _ _ h) [
      | inl later ↦ search-free rounds (suc i) preferred path used later
      | inr (free, here) ↦ subst (λ a. taken a path used ≡ false) here free
    ]

-- What an alias is good for: no other path had it, it stands for the path, and nothing else changes.
pub record Assigned (path : String) (used : Used) (r : String × Used) : Type 0 where
  pub unheld : (other : String) → lookup r.0 used ≡ some other → other ≡ path
  pub assigned : lookup r.0 r.1 ≡ some path
  pub others : (alias : String) → str_eq r.0 alias ≡ false → lookup alias r.1 ≡ lookup alias used

insert-Assigned :
    (alias path : String) (used : Used)
    → taken alias path used ≡ false
    → Assigned path used (alias, insert alias path used)
insert-Assigned alias path used free = record {
  unheld = λ other h. ground (arith, free, h, eq_iff other path);
  assigned = lookup-insert alias alias path used ∙ ground (arith, eq_iff alias alias);
  others = λ a h. lookup-insert alias a path used ∙ ground (arith, h);
}

-- `uniqueImportAlias` always returns, within as many rounds as there are aliases in use and one: with an
-- alias that no other path had, which stands for the path from then on.
pub unique_import_alias-Assigned :
    (preferred path : String) (used : Used)
    → (r : String × Used) × (unique_import_alias preferred path used ≡ some r)
      × Assigned path used r
unfolding unique_import_alias
unique_import_alias-Assigned preferred path used = elim (Bool-cases (taken preferred path used)) [
  | inr free ↦ (
    (preferred, insert preferred path used),
    ground (arith, free),
    insert-Assigned preferred path used free,
  )
  | inl held ↦ elim (Option-cases (search (suc (length used)) 2 preferred path used)) [
    | inl stuck ↦ absurd (search_ends (length used) 2 preferred path used refl stuck)
    | inr (alias, found) ↦ (
      (alias, insert alias path used),
      rw held (ap (with_alias path used) found),
      insert-Assigned alias path used (search-free (suc (length used)) 2 preferred path used found),
    )
  ]
]
