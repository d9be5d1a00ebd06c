-- ===== src/Store/Adapter/Rollback.antt =====
-- `Adapter.Configure` opens every source, or leaves the map as it found it.
use dbstore.Common.{
  ℕ, ◌+◌, ◌≡◌, refl, sym, ap, ◌∙◌, ltb, String, Option, none, some, List, [], ◌∷◌, ◌++◌,
  append_assoc, append-nil, ids, count, hit, lookup, if◌then◌else◌, arith, Option-cases, inl, inr,
  All-append,
}
use dbstore.Store.Errors.{Error, Result, ok, err, configuring, configure_name_required}
use dbstore.Store.Config.{SourceConfig, Config}
use dbstore.Store.Directory.{Directory}
use dbstore.Store.Adapter.{register, in_flight, rollback, configure_sources, configure, with_error}
use dbstore.Store.Adapter.Stack.{
  stack, Distinct, lookup-stack-none, Distinct-snoc, stack-append, numbered,
}
use dbstore.Store.Adapter.Effects.{
  Refuses, Opens, register-Refuses, register-Opens, IsIdle, IsIdle-mono, rollback-RolledBack,
}

-- What a return of `Configure` leaves, from what it found.
abbrev pub AllOrNothing :
    List (String × SourceConfig) → Directory → Option Error → Directory → Type 0
AllOrNothing sources d none d' =
    (d'.entries ≡ stack (numbered d.next_client sources) d.entries)
    × (d'.closed_clients ≡ d.closed_clients)
AllOrNothing sources d (some e) d' =
    (d'.entries ≡ d.entries)
    × ((c : ℕ)
        → count c d'.closed_clients + (if ltb c d.next_client then 1 else 0)
          ≡ count c d.closed_clients + (if ltb c d'.next_client then 1 else 0))

-- How many of the clients of a number have been opened.
abbrev born : ℕ → ℕ → ℕ
born c n = if ltb c n then 1 else 0

-- The state of the loop over the sources: `es`, `n` and `cl` are the entries, the next client and the
-- closed clients that the call found.
record Loop (es : List (String × ℕ)) (n : ℕ) (cl : List ℕ) (os : List (String × ℕ)) (d : Directory)
    : Type 0 where
  on_top : d.entries ≡ stack os es
  distinct : Distinct os
  idle : IsIdle d os
  accounted :
      (c : ℕ)
      → count c d.closed_clients + count c (ids os) + born c n ≡ count c cl + born c d.next_client

abbrev Ends :
    List (String × ℕ)
    → ℕ
    → List ℕ
    → List (String × ℕ)
    → List (String × SourceConfig)
    → Directory
    → Option Error
    → Directory
    → Type 0
Ends es n cl os rest d none d' =
    (d'.entries ≡ stack (os ++ numbered d.next_client rest) es)
    × (d'.closed_clients ≡ d.closed_clients)
Ends es n cl os rest d (some e) d' =
    (d'.entries ≡ es)
    × ((c : ℕ) → count c d'.closed_clients + born c n ≡ count c cl + born c d'.next_client)

count-snoc :
    (c x : ℕ) (name : String) (os : List (String × ℕ))
    → count c (ids (os ++ (name, x) ∷ [])) ≡ count c (ids os) + hit c x
count-snoc c x name [] = omega arith
count-snoc c x name ((j, v) ∷ os) = omega (arith, count-snoc c x name os)

module _ (failure : SourceConfig → Option Error) (now : ℕ) (es : List (String × ℕ)) (n : ℕ)
    (cl : List ℕ) where
  refused-Ends :
      (os : List (String × ℕ)) (name : String) (e : Error) (d d1 : Directory)
      → Loop es n cl os d
      → Refuses d d1
      → (d' : Directory) × (with_error (configuring name e) (rollback os d1)
          ≡ some (some (configuring name e), d'))
        × (d'.entries ≡ es)
        × ((c : ℕ) → count c d'.closed_clients + born c n ≡ count c cl + born c d'.next_client)
  unfolding with_error
  refused-Ends os name e d d1 l f =
      let (d', b) =
        rollback-RolledBack os es d1 (f.entries_same ∙ l.on_top) l.distinct
          (IsIdle-mono d d1 os (λ x z. f.heap_same x ∙ z) l.idle) in
      (
        d',
        rw b.done,
        b.entries_back,
        λ c. ground (arith, b.closed_all c, b.next_same, l.accounted c, f.closes_opened c),
      )

  opened-Loop :
      (os : List (String × ℕ)) (name : String) (c : ℕ) (d d1 : Directory)
      → Loop es n cl os d
      → Opens name c d d1
      → Loop es n cl (os ++ (name, c) ∷ []) d1
  opened-Loop os name c d d1 l o =
      let missing : lookup name os ≡ none =
        lookup-stack-none name os es (ap (lookup name) (sym l.on_top) ∙ o.was_missing) in
      record {
        on_top = ground (arith, o.entries_more, l.on_top, stack-append os (name, c) es);
        distinct = Distinct-snoc name c os missing l.distinct;
        idle =
            All-append (λ p. in_flight p.1 d1 ≡ 0) os ((name, c) ∷ [])
              (IsIdle-mono d d1 os o.heap_idle l.idle) (o.idle, tt);
        accounted = λ x.
            ground
              (arith, l.accounted x, o.closed_same, o.next_more, o.is_next, count-snoc x c name os);
      }

  Ends-cons :
      (os : List (String × ℕ)) (name : String) (cfg : SourceConfig) (c : ℕ)
      (rest : List (String × SourceConfig)) (d d1 : Directory) (e : Option Error) (d' : Directory)
      → Opens name c d d1
      → Ends es n cl (os ++ (name, c) ∷ []) rest d1 e d'
      → Ends es n cl os ((name, cfg) ∷ rest) d e d'
  Ends-cons os name cfg c rest d d1 none d' o end = (
    ground (
      arith,
      o.is_next,
      o.next_more,
      end.0,
      append_assoc os ((name, c) ∷ []) (numbered d1.next_client rest),
    ),
    end.1 ∙ o.closed_same,
  )
  Ends-cons os name cfg c rest d d1 (some e) d' o end = end

  -- One round, given what the rounds after it do.
  round :
      (os : List (String × ℕ)) (name : String) (cfg : SourceConfig)
      (rest : List (String × SourceConfig)) (d : Directory)
      → Loop es n cl os d
      → (r : Result ℕ) (d1 : Directory) → register name cfg (failure cfg) now d ≡ (r, d1)
      → ((c : ℕ)
          → Loop es n cl (os ++ (name, c) ∷ []) d1
          → (e : Option Error) × (d' : Directory) × (configure_sources failure now
                (os ++ (name, c) ∷ [])
                rest
                d1
              ≡ some (e, d'))
            × Ends es n cl (os ++ (name, c) ∷ []) rest d1 e d')
      → (e : Option Error) × (d' : Directory) × (configure_sources failure now os
            ((name, cfg) ∷ rest)
            d
          ≡ some (e, d'))
        × Ends es n cl os ((name, cfg) ∷ rest) d e d'
  unfolding configure_sources
  round os name cfg rest d l (err e) d1 h later =
      let (d', run, back, all) =
        refused-Ends os name e d d1 l (register-Refuses name cfg (failure cfg) now d h) in
      (some (configuring name e), d', ground (arith, run), (back, all))
  round os name cfg rest d l (ok c) d1 h later =
      let o = register-Opens name cfg (failure cfg) now d h in
      let (e, d', run, end) = later c (opened-Loop os name c d d1 l o) in
      (e, d', ground (arith, run), Ends-cons os name cfg c rest d d1 e d' o end)

  loop :
      (os : List (String × ℕ)) (rest : List (String × SourceConfig)) (d : Directory)
      → Loop es n cl os d
      → (e : Option Error) × (d' : Directory) × (configure_sources failure now os rest d
          ≡ some (e, d'))
        × Ends es n cl os rest d e d'
  unfolding configure_sources
  loop os [] d l = (none, d, refl, (l.on_top ∙ ap (λ x. stack x es) (sym (append-nil os)), refl))
  loop os ((name, cfg) ∷ rest) d l =
      let (r, d1) = register name cfg (failure cfg) now d in
      round os name cfg rest d l r d1 refl (λ c. loop (os ++ (name, c) ∷ []) rest d1)

-- `Configure`, with nobody else at work on the directory, returns. If it returns no error, each source
-- of the configuration is in the map, with a client of its own, on top of the entries that were there,
-- and nothing was closed. If it returns an error, the map is as before, and the clients that the call
-- opened are closed, each once, and no other.
pub configure-AllOrNothing :
    (failure : SourceConfig → Option Error) (now : ℕ) (cfg : Config) (d : Directory)
    → (e : Option Error) × (d' : Directory) × (configure failure now cfg d ≡ some (e, d'))
      × AllOrNothing cfg.sources d e d'
unfolding configure
configure-AllOrNothing failure now cfg d = elim (Option-cases (lookup "" cfg.sources)) [
  | inl named ↦
      let (e, d', run, end) =
        loop failure now d.entries d.next_client d.closed_clients [] cfg.sources d
          (record { on_top = refl; distinct = tt; idle = tt; accounted = λ c. omega arith }) in
      (e, d', ground (arith, run), ended cfg.sources d e d' end)
  | inr (x, unnamed) ↦ (some configure_name_required, d, ground arith, (refl, λ c. refl))
]
  where
    ended :
        (sources : List (String × SourceConfig)) (d : Directory) (e : Option Error) (d' : Directory)
        → Ends d.entries d.next_client d.closed_clients [] sources d e d'
        → AllOrNothing sources d e d'
    ended sources d none d' end = end
    ended sources d (some e) d' end = end
