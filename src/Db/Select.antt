-- ===== src/Db/Select.antt =====
-- The queries that list files, tags and groups.
pub mod Files
pub mod Tags
pub mod Groups
pub mod Found
pub mod Reads
mod Tests
