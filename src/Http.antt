-- ===== src/Http.antt =====
-- internal/transport: the two listeners' handlers and what stands around them.
pub mod Errors
pub mod Writer
pub mod Requests
pub mod Source
pub mod Evaluate
pub mod Health
pub mod Admin
