-- ===== src/Adapters/Prometheus.antt =====
-- adapters/prometheus/observer.go: the metrics of an `Observer`. A histogram is the outcomes that it
-- has seen, without their durations; a counter or gauge of a label is a function of the label.
pub mod Gauges
use dbstore.Common.{
  ℕ, zero, suc, ◌+◌, String, str_eq, Option, none, some, List, [], ◌∷◌, ◌++◌, ℤ, pos, inc, dec,
  if◌then◌else◌,
}
use dbstore.Store.Errors.{Error, is_canceled}
use dbstore.Store.Directory.{
  Lifecycle, source_registered, source_removed, RunEvent, acquired, completed,
}

pub data Status : Type 0 where
  ok canceled error : Status

unfoldable pub status : Option Error → Status
status none = ok
status (some e) = if is_canceled e then canceled else error

pub record Metrics : Type 0 where
  pub wait : List (String × Status)
  pub run : List (String × Status)
  pub inflight : String → ℤ
  pub sources_active : ℤ
  pub events_registered : ℕ
  pub events_removed : ℕ

-- `New` on a registry of its own.
unfoldable pub new_metrics : Metrics
new_metrics = record {
  wait = [];
  run = [];
  inflight = λ source. pos 0;
  sources_active = pos 0;
  events_registered = 0;
  events_removed = 0;
}

abbrev at_source : String → (ℤ → ℤ) → (String → ℤ) → String → ℤ
at_source source f gauge k = if str_eq source k then f (gauge k) else gauge k

unfoldable pub observe_source_registered : String → Metrics → Metrics
observe_source_registered source m = record m {
  sources_active = inc m.sources_active;
  events_registered = suc m.events_registered;
}

unfoldable pub observe_source_removed : String → Metrics → Metrics
observe_source_removed source m = record m {
  sources_active = dec m.sources_active;
  events_removed = suc m.events_removed;
}

unfoldable pub observe_acquire : String → Option Error → Metrics → Metrics
observe_acquire source none m = record m {
  wait = m.wait ++ (source, status none) ∷ [];
  inflight = at_source source inc m.inflight;
}
observe_acquire source (some e) m = record m { wait = m.wait ++ (source, status (some e)) ∷ [] }

unfoldable pub observe_complete : String → Option Error → Metrics → Metrics
observe_complete source e m = record m {
  inflight = at_source source dec m.inflight;
  run = m.run ++ (source, status e) ∷ [];
}

-- The callbacks of a directory, in order.
unfoldable pub after_lifecycle : List Lifecycle → Metrics → Metrics
after_lifecycle [] m = m
after_lifecycle (source_registered s ∷ ls) m = after_lifecycle ls (observe_source_registered s m)
after_lifecycle (source_removed s ∷ ls) m = after_lifecycle ls (observe_source_removed s m)

unfoldable pub after_runs : List RunEvent → Metrics → Metrics
after_runs [] m = m
after_runs (acquired s e ∷ rs) m = after_runs rs (observe_acquire s e m)
after_runs (completed s e ∷ rs) m = after_runs rs (observe_complete s e m)
