-- ===== src/Mcp.antt =====
-- mcpserver: SQL sources behind the tools of a Model Context Protocol server.
pub mod Operation
pub mod Errors
pub mod Policy
pub mod ReadOnly
pub mod Server
pub mod Command
pub mod Query
pub mod Tools
mod Tests
