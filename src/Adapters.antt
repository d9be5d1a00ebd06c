-- ===== src/Adapters.antt =====
-- adapters: what stands on internal/store.
pub mod Prometheus
pub mod Sqlx
pub mod Reply
pub mod Rest
pub mod Elasticsearch
pub mod Opensearch
mod Tests
