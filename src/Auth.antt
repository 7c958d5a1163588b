-- ===== src/Auth.antt =====
-- internal/auth/auth.go: who a caller is and what the caller may do.
pub mod Roles
pub mod Authenticator
pub mod Access
pub mod RoleSets
pub mod Logins
pub mod Sessions
