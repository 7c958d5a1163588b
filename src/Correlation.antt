-- ===== src/Correlation.antt =====
-- internal/correlator/correlator.go: alerts that need more than one event.
pub mod Correlator
pub mod Sequences
