-- ===== src/Policy/Gateway.antt =====
-- gateway.go: the verdict of the inline gateway on a tool call.
pub mod Assess
pub mod Score
pub mod Gate
pub mod Stages
pub mod ScoreBounds
pub mod Verdicts
pub mod Alerts
pub mod Risk
pub mod Decisions
