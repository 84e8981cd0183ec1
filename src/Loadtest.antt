-- ===== src/Loadtest.antt =====
-- cmd/loadtest/stats.go and summary.go: the samples of a load test and the numbers made of them.
pub mod Samples
pub mod Percentile
pub mod Tally
pub mod Agreement
pub mod Distributions
pub mod Addresses
pub mod Limiter
pub mod Config
pub mod Dispatch
pub mod OpenLoop
pub mod Watch
pub mod ClosedLoop
pub mod Seed
pub mod TimingRun
pub mod Ranks
pub mod Seeding
pub mod Requests
