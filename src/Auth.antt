-- ===== src/Auth.antt =====
-- internal/auth: the principal of a connection and how verified access material is bound to it.
pub mod Identity
pub mod Platform
pub mod Binding
pub mod Keys
pub mod PlatformConfig
