-- ===== src/Mongo.antt =====
-- packages/core/src/mongo/guard.ts: the safety boundary for MongoDB aggregation pipelines.
pub mod Policy
pub mod Pattern
pub mod Scan
pub mod Stages
pub mod Walk
pub mod Cap
pub mod Integers
pub mod Shell
pub mod Guard
mod Tests
