-- ===== src/Db.antt =====
-- sql/mod.rs over the schema of sql/migrations/m0.rs: the operations on the database as functions
-- of the tables. A statement that fails ends the operation: its transaction is rolled back.
pub mod Store
pub mod Monad
pub mod Lookup
pub mod Ensure
pub mod Link
pub mod Remove
pub mod Rename
pub mod Consistent
pub mod Preserve
pub mod Groups
pub mod Query
pub mod Select
pub mod Intersect
pub mod Pins
pub mod Migrations
pub mod Sample
pub mod View
mod Tests
