-- ===== src/Fuse/Errno.antt =====
-- fuse/err.rs, and the conversions to `FuseErrno` of common/err.rs and of fuse-sys/src/err.rs.
use supertag.Base.{ℕ, Option, none, some}
use supertag.Errors.{SqlError, STagError, path_exists}

pub data Errno : Type 0 where
  eio : Errno
  eperm : Errno
  enoent : Errno
  enosys : Errno
  eexist : Errno
  os_error : ℕ → Errno

-- What `map_io_err` looks at in an error: the kind, and the number of the operating system.
pub data IoKind : Type 0 where
  invalid_data : IoKind
  permission_denied : IoKind
  other_kind : Option ℕ → IoKind

unfoldable pub map_io_err : IoKind → Errno
map_io_err invalid_data = eio
map_io_err permission_denied = eperm
map_io_err (other_kind none) = eio
map_io_err (other_kind (some n)) = os_error n

-- `From<STagError> for SupertagShimError`, then `From<SupertagShimError> for FuseErrno`
unfoldable pub shim : STagError → Errno
shim (path_exists _) = eexist
shim _ = eio

-- `From<rusqlite::Error> for SupertagShimError`
unfoldable pub shim_sql : SqlError → Errno
shim_sql e = eio

-- `From<STagError> for FuseErrno`
unfoldable pub from_stag : STagError → Errno
from_stag e = eio
