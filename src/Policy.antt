-- ===== src/Policy.antt =====
-- internal/policy: the policy engine and the inline tool-call gateway.
pub mod Terms
pub mod Text
pub mod Hosts
pub mod Engine
pub mod Tenants
pub mod Deception
pub mod Registry
pub mod Packs
pub mod Configuration
pub mod Identity
pub mod Rules
pub mod Taint
pub mod History
pub mod Gateway
