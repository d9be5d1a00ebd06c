-- ===== src/Store/Adapter/Effects.antt =====
-- What one `register`, one `removeEntry`, and a rollback do when no other goroutine is at work.
use dbstore.Common.{
  ℕ, suc, ◌+◌, ◌≡◌, refl, ◌∙◌, ltb, String, Option, none, some, List, [], ◌∷◌, ◌++◌, ids, count,
  lookup, delete, if◌then◌else◌, arith, eq_iff, All,
}
use dbstore.Store.Errors.{Error, ok, err}
use dbstore.Store.Config.{SourceConfig}
use dbstore.Store.Driver.{open_with}
use dbstore.Store.Directory.{
  Directory, source_removed, register_begin, register_commit, remove_entry_begin, note_opened,
  close_client, deliver,
}
use dbstore.Store.Adapter.{register, in_flight, remove_entry, rollback}
use dbstore.Store.Adapter.Stack.{stack, Distinct, lookup-stack, delete-stack}

-- What a call that refuses a source has done, and what one that opens it has.
pub record Refuses (d d' : Directory) : Type 0 where
  pub entries_same : d'.entries ≡ d.entries
  pub heap_same : (e : ℕ) → in_flight e d' ≡ in_flight e d
  pub closes_opened :
      (c : ℕ)
      → count c d'.closed_clients + (if ltb c d.next_client then 1 else 0)
        ≡ count c d.closed_clients + (if ltb c d'.next_client then 1 else 0)

pub record Opens (name : String) (c : ℕ) (d d' : Directory) : Type 0 where
  pub was_missing : lookup name d.entries ≡ none
  pub entries_more : d'.entries ≡ (name, c) ∷ d.entries
  pub heap_idle : (e : ℕ) → in_flight e d ≡ 0 → in_flight e d' ≡ 0
  pub idle : in_flight c d' ≡ 0
  pub closed_same : d'.closed_clients ≡ d.closed_clients
  pub next_more : d'.next_client ≡ suc d.next_client
  pub is_next : c ≡ d.next_client

module _ (name : String) (cfg : SourceConfig) (failure : Option Error) (now : ℕ)
    (d : Directory) where
  pub register-Refuses :
      {e : Error} {d' : Directory} → register name cfg failure now d ≡ (err e, d') → Refuses d d'
  unfolding register register_begin register_commit open_with note_opened close_client deliver
      in_flight
  register-Refuses h = record {
    entries_same = ground arith;
    heap_same = λ e. ground arith;
    closes_opened = λ c. ground arith;
  }

  pub register-Opens :
      {c : ℕ} {d' : Directory} → register name cfg failure now d ≡ (ok c, d') → Opens name c d d'
  unfolding register register_begin register_commit open_with note_opened close_client deliver
      in_flight
  register-Opens h = record {
    was_missing = ground arith;
    entries_more = ground arith;
    heap_idle = λ e z. ground arith;
    idle = ground arith;
    closed_same = ground arith;
    next_more = ground arith;
    is_next = ground arith;
  }

record Removes (name : String) (c : ℕ) (d d' : Directory) : Type 0 where
  pub removes : remove_entry name (some c) none d ≡ some (none, d')
  pub entries_less : d'.entries ≡ delete name d.entries
  pub heap_same : (e : ℕ) → in_flight e d' ≡ in_flight e d
  pub closed_more : d'.closed_clients ≡ c ∷ d.closed_clients
  pub next_same : d'.next_client ≡ d.next_client

remove-own :
    (name : String) (c : ℕ) (d : Directory)
    → lookup name d.entries ≡ some c
    → in_flight c d ≡ 0
    → (d' : Directory) × Removes name c d d'
unfolding remove_entry remove_entry_begin close_client deliver in_flight
remove-own name c d found idle = (
  close_client c (
      deliver (source_removed name) (record d {
        entries = delete name d.entries;
        history = d.history ++ source_removed name ∷ [];
      })),
  record {
    removes = ground arith;
    entries_less = ground arith;
    heap_same = λ e. ground arith;
    closed_more = ground arith;
    next_same = ground arith;
  },
)

abbrev pub IsIdle : Directory → List (String × ℕ) → Type 0
IsIdle d = All (λ o. in_flight o.1 d ≡ 0)

pub IsIdle-mono :
    (d d' : Directory) (os : List (String × ℕ))
    → ((e : ℕ) → in_flight e d ≡ 0 → in_flight e d' ≡ 0)
    → IsIdle d os
    → IsIdle d' os
IsIdle-mono d d' [] k h = tt
IsIdle-mono d d' ((n, c) ∷ os) k h = (k c h.0, IsIdle-mono d d' os k h.1)

pub record RolledBack (os es : List (String × ℕ)) (d d' : Directory) : Type 0 where
  pub done : rollback os d ≡ some d'
  pub entries_back : d'.entries ≡ es
  pub closed_all : (c : ℕ) → count c d'.closed_clients ≡ count c d.closed_clients + count c (ids os)
  pub next_same : d'.next_client ≡ d.next_client

pub rollback-RolledBack :
    (os es : List (String × ℕ)) (d : Directory)
    → d.entries ≡ stack os es
    → Distinct os
    → IsIdle d os
    → (d' : Directory) × RolledBack os es d d'
unfolding rollback
rollback-RolledBack [] es d on_top u idle = (
  d,
  record { done = refl; entries_back = on_top; closed_all = λ c. omega arith; next_same = refl },
)
rollback-RolledBack ((n, c) ∷ os) es d on_top u idle =
    let found : lookup n d.entries ≡ some c =
      ground (arith, lookup-stack n os ((n, c) ∷ es) u.0, eq_iff n n) in
    let (d1, r) = remove-own n c d found idle.0 in
    let less : d1.entries ≡ stack os es =
      ground (arith, r.entries_less, delete-stack n os ((n, c) ∷ es) u.0, eq_iff n n) in
    let (d2, b) =
      rollback-RolledBack os es d1 less u.1
        (IsIdle-mono d d1 os (λ e z. r.heap_same e ∙ z) idle.1) in
    (
      d2,
      record {
        done = ground (arith, r.removes, b.done);
        entries_back = b.entries_back;
        closed_all = λ e. ground (arith, b.closed_all e, r.closed_more);
        next_same = b.next_same ∙ r.next_same;
      },
    )
