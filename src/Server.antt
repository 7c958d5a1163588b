-- ===== src/Server.antt =====
-- internal/server: the handlers of the API that decide on tool calls, execute and forward them, take in
-- events and administer canaries and overlays, and the registry of tenant stores.
pub mod State
pub mod Stable
pub mod Limiter
pub mod Tenancy
pub mod Tenants
pub mod Access
pub mod Guard
pub mod Actions
pub mod Gateway
pub mod Upstream
pub mod Forward
pub mod Mcp
pub mod Proxy
pub mod Approval
pub mod Ingest
pub mod Planning
pub mod Administration
pub mod Invariants
pub mod Blocked
pub mod Dispatched
pub mod Gated
pub mod Denied
pub mod Validated
pub mod Runs
pub mod Slots
pub mod Confined
