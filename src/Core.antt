-- ===== src/Core.antt =====
-- internal/core: the domain types and the evaluation engine.
pub mod Value
pub mod Model
pub mod Context
pub mod Trace
pub mod Semver
pub mod Matcher
pub mod Bucket
pub mod Evaluator
mod Examples
