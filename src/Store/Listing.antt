-- ===== src/Store/Listing.antt =====
-- `Sources` of internal/store/directory.go: the registered sources, without DSNs, by name.
use dbstore.Common.{
  ℕ, ◌≤◌, ◌≡◌, refl, ◌∙◌, String, eq_iff, Option, none, some, List, [], ◌∷◌, arith, lookup, ids,
  count, inl, inr, Option-cases, sort_by, find_by, occurrences, IsSorted, sort_by-IsSorted,
  find-sort_by, occurrences-sort_by, Bool,
}
use dbstore.Store.Config.{SourceInfo}
use dbstore.Store.Directory.{Entry, Directory}
use dbstore.Store.Goroutine.System.{System, Reach}
use dbstore.Store.Goroutine.InFlight.{allocated}
use dbstore.Store.Goroutine.Keys.{occurs}
use dbstore.Store.Goroutine.Invariant.{Reach-Inv}

abbrev pub info_of : String → Entry → SourceInfo
info_of name x = record {
  name = name;
  driver = x.driver;
  created_at = x.created_at;
  max_concurrency = x.max_concurrency;
}

-- The loop over the map; `none` is a nil entry, on which the code panics.
unfoldable pub infos : (ℕ → Option Entry) → List (String × ℕ) → Option (List SourceInfo)
infos heap [] = some []
infos heap ((name, e) ∷ rest) = elim (heap e) [
  | none ↦ none
  | some x ↦ elim (infos heap rest) [ none ↦ none | some is ↦ some (info_of name x ∷ is) ]
]

abbrev by_name : SourceInfo → String
by_name i = i.name

-- In one hold of `mu`.
unfoldable pub sources : Directory → Option (List SourceInfo)
sources d = elim (infos d.heap d.entries) [ none ↦ none | some is ↦ some (sort_by by_name is) ]

-- What the directory has under a name.
abbrev pub described : String → Directory → Option SourceInfo
described k d = elim (lookup k d.entries) [
  | none ↦ none
  | some e ↦ elim (d.heap e) [ none ↦ none | some x ↦ some (info_of k x) ]
]

-- A listing is in the order of the names, none of which repeats, and has under each name what the
-- directory has.
pub record Lists (d : Directory) (is : List SourceInfo) : Type 0 where
  pub ordered : IsSorted by_name is
  pub distinct : (k : String) → occurrences by_name k is ≤ 1
  pub faithful : (k : String) → find_by by_name k is ≡ described k d

record Collects (heap : ℕ → Option Entry) (es : List (String × ℕ)) (is : List SourceInfo)
    : Type 0 where
  run : infos heap es ≡ some is
  names : (k : String) → occurrences by_name k is ≡ occurs k es
  finds :
      (k : String)
      → find_by by_name k is ≡ elim (lookup k es) [
        | none ↦ none
        | some e ↦ elim (heap e) [ none ↦ none | some x ↦ some (info_of k x) ]
      ]

Collects-cons :
    (heap : ℕ → Option Entry) (name : String) (e : ℕ) (es : List (String × ℕ)) (x : Entry)
    (is : List SourceInfo)
    → heap e ≡ some x
    → Collects heap es is
    → Collects heap ((name, e) ∷ es) (info_of name x ∷ is)
unfolding infos
Collects-cons heap name e es x is at_e c = record {
  run = ground (arith, at_e, c.run);
  names = λ k. ground (arith, c.names k);
  finds = λ k. ground (arith, at_e, c.finds k, eq_iff name k);
}

infos-Collects :
    (heap : ℕ → Option Entry) (es : List (String × ℕ))
    → ((c : ℕ) → count c (ids es) ≤ allocated (heap c))
    → (is : List SourceInfo) × Collects heap es is
unfolding infos
infos-Collects heap [] all = ([], record { run = refl; names = λ k. refl; finds = λ k. refl })
infos-Collects heap ((name, e) ∷ es) all = elim (Option-cases (heap e)) [
  | inl nil ↦ absurd (ground (arith, nil, all e))
  | inr (x, at_e) ↦
      let (is, c) = infos-Collects heap es (λ z. ground (arith, all z)) in
      (info_of name x ∷ is, Collects-cons heap name e es x is at_e c)
]

-- In every reachable state `Sources` returns, with a listing of the directory.
pub sources-Lists :
    {observer : Bool} {s : System}
    → Reach observer s
    → (is : List SourceInfo) × (sources s.dir ≡ some is) × Lists s.dir is
unfolding sources
sources-Lists {s = s} r =
    let (is, c) = infos-Collects s.heap s.entries (Reach-Inv r).alloc in
    (
      sort_by by_name is,
      ground (arith, c.run),
      record {
        ordered = sort_by-IsSorted by_name is;
        distinct = λ k.
            ground (arith, occurrences-sort_by by_name k is, c.names k, (Reach-Inv r).tallied k);
        faithful = λ k. find-sort_by by_name k is ∙ c.finds k;
      },
    )
