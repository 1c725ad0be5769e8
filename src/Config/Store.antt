-- ===== src/Config/Store.antt =====
-- internal/config/store.go: the builds of an environment (Build), the store of layers and snapshots
-- (State), the subscriptions and reads (Subscribe), and what holds of them.
pub mod Build
pub mod State
pub mod Push
pub mod Subscribe
pub mod Sound
pub mod Steps
pub mod Outcome
pub mod Report
pub mod Keep
pub mod Converge
pub mod Isolation
mod Examples
