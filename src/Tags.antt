-- ===== src/Tags.antt =====
-- common/types/mod.rs: device files, the kinds of path parts, and what is collected from them.
pub mod Types
pub mod Collection
pub mod Collect
pub mod Pinnable
mod Tests
