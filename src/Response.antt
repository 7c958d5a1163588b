-- ===== src/Response.antt =====
-- internal/response/planner.go: the actions that an alert calls for.
pub mod Planner
pub mod Plans
