-- ===== src/Db/Preserve.antt =====
-- The operations keep the tables consistent.
pub mod Grows
pub mod Ensure
pub mod Link
pub mod AddFile
pub mod Unlink
pub mod RemoveFile
pub mod RemoveTag
pub mod Purge
pub mod Rename
pub mod Anyhow
pub mod Framed
pub mod Pinned
pub mod History
