-- ===== src/Cache.antt =====
-- fuse/opcache.rs: what the file system remembers between calls.
pub mod Alias
pub mod Header
pub mod Validity
pub mod Ttl
pub mod OpCache
pub mod Expiry
pub mod Sample
mod Tests
