-- ===== src/Auth.antt =====
-- internal/aclweb/auth/auth.go: the users of the web side, their sessions and the login rate limit.
pub mod Tables
pub mod Limits
pub mod Users
pub mod Sessions
pub mod Admins
pub mod Kept
pub mod History
