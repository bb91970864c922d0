-- ===== src/Perms/Class.antt =====
-- `ClassPerms`: what the owner, the group or others may do.
use Prim.Native.Nat.{bit_and, bit_or}
use supertag.Base.{ℕ, Bool, true, false, ltb, if◌then◌else◌}

pub record ClassPerms : Type 0 where
  pub read : Bool
  pub write : Bool
  pub execute : Bool

unfoldable pub all_perms : ClassPerms → ClassPerms
all_perms c = record c { read = true; write = true; execute = true }

unfoldable pub all_but_write : ClassPerms → ClassPerms
unfolding all_perms
all_but_write c = record (all_perms c) { write = false }

-- `mode`: each class is a digit of three bits.
unfoldable pub mode : ClassPerms → ℕ
mode c =
    let with_read = if c.read then bit_or 0 4 else 0 in
    let with_write = if c.write then bit_or with_read 2 else with_read in
    if c.execute then bit_or with_write 1 else with_write

-- `From<mode_t>`
unfoldable pub from_mode : ℕ → ClassPerms
from_mode val = record {
  read = ltb 0 (bit_and val 0b100);
  write = ltb 0 (bit_and val 0b010);
  execute = ltb 0 (bit_and val 0b001);
}
