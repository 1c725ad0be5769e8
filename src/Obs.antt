-- ===== src/Obs.antt =====
-- internal/obs: traces, the labels and series of metrics, and the log.
pub mod Trace
pub mod Labels
pub mod Histogram
pub mod Registry
pub mod Recorder
pub mod Sampler
pub mod Log
