-- ===== src/Store.antt =====
-- internal/store: the runtime that every adapter shares.
pub mod Errors
pub mod Config
pub mod Throttle
pub mod Driver
pub mod Directory
pub mod Protocol
pub mod Goroutine
pub mod Adapter
pub mod Runner
pub mod Options
pub mod Observer
pub mod Listing
mod Tests
