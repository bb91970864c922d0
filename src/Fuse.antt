-- ===== src/Fuse.antt =====
-- fuse: the handlers of the mounted file system, on Linux, as functions of the database and the
-- cache. A call answers, refuses with an error number, or panics; the database has a transaction's
-- changes only if it is committed.
pub mod Errno
pub mod Stat
pub mod State
pub mod Flush
pub mod Env
pub mod Links
pub mod Dirs
pub mod Settles
pub mod Denied
pub mod Calm
pub mod Canary
pub mod Calls
pub mod Canaries
pub mod Kept
pub mod Handlers
pub mod Serves
pub mod Mounted
pub mod Getattr
pub mod Readdir
pub mod Lists
mod Tests
