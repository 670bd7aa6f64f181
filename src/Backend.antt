-- ===== src/Backend.antt =====
-- lib/workstation/hyperloom_owner_backend.py and hyperloom_latency.py: the optimizer's benchmark backend,
-- which submits a job, waits for its result and checks the report.
pub mod Latency
pub mod Samples
pub mod Reports
pub mod Binding
pub mod Screen
pub mod Runs
pub mod Measured
pub mod Distinct
pub mod Series
pub mod Evidence
pub mod Accepted
pub mod Plan
pub mod Depth
pub mod Posted
pub mod Provenance
pub mod Waiting
pub mod Begun
pub mod Fresh
pub mod Tests
mod SeriesTests
mod WaitingTests
