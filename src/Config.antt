-- ===== src/Config.antt =====
-- internal/config: layers, their merge, and the validation of what was merged.
pub mod Opt
pub mod Layer
pub mod Findings
pub mod Merge
pub mod Resolved
pub mod Premerge
pub mod Snapshot
pub mod Store
mod Examples
