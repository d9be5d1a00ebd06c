-- ===== src/Gen.antt =====
-- cmd/dbstore-gen: the generator of repositories.
mod Tests
pub mod Errors
pub mod Spec
pub mod Paths
pub mod Config
pub mod Alias
pub mod Parser
pub mod Names
pub mod View
pub mod Implementation
pub mod Resolve
pub mod Files
pub mod Plan
pub mod Run
pub mod Template
pub mod Render
