-- ===== src/Runner.antt =====
-- src/runner: what stands between a test plan and its results.
pub mod Limiter
pub mod Retry
pub mod Shard
pub mod Filter
pub mod Verdicts
pub mod Discovery
