-- ===== src/Client.antt =====
-- pkg/client: the client that services embed.
pub mod State
pub mod Names
pub mod Codec
pub mod Writer
pub mod Updater
pub mod Evaluate
pub mod Limiter
mod Examples
mod Scenarios
