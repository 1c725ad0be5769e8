-- ===== src/Server.antt =====
-- cmd/flagd: how the parts are put together.
pub mod Wiring
