-- ===== src/Perms/Umask.antt =====
-- `UMask`: the permissions of new files and directories.
use Prim.Native.Nat.{bit_and}
use supertag.Base.{ℕ, ◌-◌, ◌^◌}
use supertag.Perms.Permissions
use supertag.Perms.Permissions.{Permissions}

pub record UMask : Type 0 where
  pub bits : ℕ

-- `!x` on a 32-bit word
abbrev complement : ℕ → ℕ
complement x = 2 ^ 32 - 1 - x

unfoldable pub file_perms : UMask → Permissions
unfolding Permissions.from_mode
file_perms u = Permissions.from_mode (bit_and 0o666 (complement u.bits))

unfoldable pub dir_perms : UMask → Permissions
unfolding Permissions.from_mode
dir_perms u = Permissions.from_mode (bit_and 0o777 (complement u.bits))
