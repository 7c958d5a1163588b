-- ===== src/Examples.antt =====
-- Runs on concrete inputs, over the ASCII platform.
mod Fixtures
mod Gateway
mod Store
mod Chain
mod Web
mod Auth
mod Sessions
mod Server
mod Tenants
mod Policies
mod Correlation
