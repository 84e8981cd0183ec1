-- ===== src/Loadreport.antt =====
-- cmd/loadreport: the report on a load test, from its summary and the CPU samples.
pub mod Commas
pub mod Aggregate
pub mod Report
pub mod Rates
