-- ===== src/Perms.antt =====
-- common/types/file_perms.rs: permission classes, umasks and permissions as `mode_t` numbers.
-- `mode_t` is a 32-bit word: `!x` is `2 ^ 32 - 1 - x`, a shift is a product or a quotient.
pub mod Class
pub mod Permissions
pub mod Umask
mod Bits
pub mod Modes
mod Tests
