-- ===== src/Auth/Keys.antt =====
-- internal/auth/key_cache.go: the public keys of the control plane, from the HTTP response that
-- carries them to the cache that serves them.
pub mod Hex
pub mod Surrogates
pub mod Errors
pub mod Headers
pub mod Document
pub mod Fetch
pub mod Cache
