-- ===== src/Sql.antt =====
-- packages/core/src/guard.ts: the guard that an SQL statement must pass before it runs.
pub mod Types
pub mod Deny
pub mod Policy
pub mod Names
pub mod Walk
pub mod Patterns
pub mod Clauses
pub mod Executable
pub mod Limit
pub mod Rewrite
pub mod Guard
mod Tests
