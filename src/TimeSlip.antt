-- ===== src/TimeSlip.antt =====
-- internal/analysis/active/timeslip: the oracle of a race condition test, the analysis of the responses,
-- and the order in which the strategies are tried.
pub mod Types
pub mod Oracle
pub mod Statistics
pub mod Heuristics
pub mod Strategies
pub mod Samples
mod Tests
