-- ===== src/Adapters/Prometheus/Gauges.antt =====
-- What the gauges of the Prometheus observer show of the directory that it observes.
use dbstore.Common.{
  ℕ, suc, ◌+◌, ◌≡◌, refl, sym, ◌∙◌, ap, String, str_eq, none, some, List, [], ◌∷◌, ℤ, pos, inc, dec,
  minus, inc-minus, dec-minus, minus_same, if◌then◌else◌, true, false, Bool, total, arith, length,
  append-nil, inl, inr, Bool-cases,
}
use dbstore.Store.Directory.{
  Lifecycle, source_registered, source_removed, RunEvent, acquired, completed,
}
use dbstore.Store.Goroutine.System.{System, Reach}
use dbstore.Store.Goroutine.Gauge.{grants, completions, observed}
use dbstore.Store.Goroutine.Safety.{callbacks_pair, callbacks_in_order}
use dbstore.Store.Goroutine.Size.{registrations, removals, Reach-IsSized}
use dbstore.Adapters.Prometheus.{
  Metrics, new_metrics, observe_source_registered, observe_source_removed, observe_acquire,
  observe_complete, after_lifecycle, after_runs,
}

minus_eq : {a b a' b' : ℕ} → a ≡ a' → b ≡ b' → minus a b ≡ minus a' b'
minus_eq h h' = cc (h, h')

module _ (k s : String) where
  inc-at :
      (g : String → ℤ) (a b : ℕ)
      → g k ≡ minus a b
      → (if str_eq s k then inc (g k) else g k) ≡ minus (a + (if str_eq s k then 1 else 0)) b
  inc-at g a b h = elim (Bool-cases (str_eq s k)) [
    | inl here ↦ rw here (ap inc h ∙ inc-minus a b ∙ minus_eq (omega arith) refl)
    | inr away ↦ rw away (h ∙ minus_eq (omega arith) refl)
  ]

  dec-at :
      (g : String → ℤ) (a b : ℕ)
      → g k ≡ minus a b
      → (if str_eq s k then dec (g k) else g k) ≡ minus a (b + (if str_eq s k then 1 else 0))
  dec-at g a b h = elim (Bool-cases (str_eq s k)) [
    | inl here ↦ rw here (ap dec h ∙ dec-minus a b ∙ minus_eq refl (omega arith))
    | inr away ↦ rw away (h ∙ minus_eq refl (omega arith))
  ]

module _ (k : String) where
  inflight-after_runs :
      (rs : List RunEvent) (m : Metrics) (a b : ℕ)
      → m.inflight k ≡ minus a b
      → (after_runs rs m).inflight k
        ≡ minus (a + total (grants k) rs) (b + total (completions k) rs)
  unfolding after_runs observe_acquire observe_complete
  inflight-after_runs [] m a b h = h ∙ minus_eq (omega arith) (omega arith)
  inflight-after_runs (acquired s none ∷ rs) m a b h =
      inflight-after_runs rs (observe_acquire s none m) (a + (if str_eq s k then 1 else 0)) b
        (inc-at k s m.inflight a b h)
      ∙ minus_eq (omega arith) (omega arith)
  inflight-after_runs (acquired s (some e) ∷ rs) m a b h =
      inflight-after_runs rs (observe_acquire s (some e) m) a b h
      ∙ minus_eq (omega arith) (omega arith)
  inflight-after_runs (completed s e ∷ rs) m a b h =
      inflight-after_runs rs (observe_complete s e m) a (b + (if str_eq s k then 1 else 0))
        (dec-at k s m.inflight a b h)
      ∙ minus_eq (omega arith) (omega arith)

-- The in-flight gauge of a source, after all callbacks so far, is the number of goroutines that are
-- between the two callbacks of a run of that source.
pub inflight_gauge_counts :
    {observer : Bool} {s : System}
    → Reach observer s
    → s.dir.observer ≡ true
    → (k : String)
    → (after_runs s.run_events new_metrics).inflight k ≡ pos (total (observed k) s.threads)
unfolding new_metrics
inflight_gauge_counts {s = s} r on k =
    inflight-after_runs k s.run_events new_metrics 0 0 (sym (minus_same 0 0))
    ∙ minus_eq (omega (arith, callbacks_pair r k on)) (omega arith)
    ∙ minus_same (total (completions k) s.run_events) (total (observed k) s.threads)

active-after_lifecycle :
    (ls : List Lifecycle) (m : Metrics) (a b : ℕ)
    → m.sources_active ≡ minus a b
    → (after_lifecycle ls m).sources_active
      ≡ minus (a + total registrations ls) (b + total removals ls)
unfolding after_lifecycle observe_source_registered observe_source_removed
active-after_lifecycle [] m a b h = h ∙ minus_eq (omega arith) (omega arith)
active-after_lifecycle (source_registered s ∷ ls) m a b h =
    active-after_lifecycle ls (observe_source_registered s m) (suc a) b (ap inc h ∙ inc-minus a b)
    ∙ minus_eq (omega arith) (omega arith)
active-after_lifecycle (source_removed s ∷ ls) m a b h =
    active-after_lifecycle ls (observe_source_removed s m) a (suc b) (ap dec h ∙ dec-minus a b)
    ∙ minus_eq (omega arith) (omega arith)

-- The gauge of active sources, after all callbacks so far, is the number of sources in the map, whenever
-- neither lock of the directory is held.
pub active_gauge_counts :
    {observer : Bool} {s : System}
    → Reach observer s
    → s.dir.observer ≡ true
    → s.mu ≡ false
    → s.observer_mu ≡ false
    → (after_lifecycle s.delivered new_metrics).sources_active ≡ pos (length s.entries)
unfolding new_metrics
active_gauge_counts {s = s} r on free free' =
    let (later, split, none_later) = callbacks_in_order r on in
    let all : s.delivered ≡ s.history =
      ground (arith, split, none_later free free', append-nil s.delivered) in
    active-after_lifecycle s.delivered new_metrics 0 0 (sym (minus_same 0 0))
    ∙ minus_eq (ground (arith, all, Reach-IsSized r)) (ground (arith, all))
    ∙ minus_same (total removals s.history) (length s.entries)
