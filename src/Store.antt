-- ===== src/Store.antt =====
-- internal/store: the store of events, alerts, actions, audits and assets, in memory or in a file.
pub mod Tenant
pub mod State
pub mod Assets
pub mod AuditChain
pub mod Persistence
pub mod Operations
pub mod Fingerprints
pub mod Grants
pub mod Chain
pub mod ChainGaps
pub mod Approval
pub mod Untouched
pub mod Others
pub mod Retention
pub mod Isolation
pub mod AssetTenants
