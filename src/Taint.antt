-- ===== src/Taint.antt =====
-- internal/analysis/active/taint: the probes of a taint analysis, the events that come back from the
-- page, and what of them is reported.
pub mod Types
pub mod Rules
pub mod Static
pub mod Pans
pub mod Correlation
pub mod Queue
pub mod Probing
mod Tests
