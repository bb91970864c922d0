-- ===== src/Perms/Permissions.antt =====
-- `Permissions`: three classes, read from and written to a mode and its octal text.
use Prim.Native.Nat.{bit_and, bit_or}
use supertag.Base.{ℕ, ◌*◌, ◌/◌, ◌^◌, Text, Result, ok, ok_or, ◌>>=◌}
use supertag.Perms.Class
use supertag.Perms.Class.{ClassPerms}
use supertag.Radix

pub record Permissions : Type 0 where
  pub owner : ClassPerms
  pub group : ClassPerms
  pub others : ClassPerms

-- `mode`: `(owner << 6) | (group << 3) | others`
unfoldable pub mode : Permissions → ℕ
mode p =
    bit_or (bit_or (Class.mode p.owner * 2 ^ 6) (Class.mode p.group * 2 ^ 3)) (Class.mode p.others)

-- `From<mode_t>`, with `S_IRWXU`, `S_IRWXG` and `S_IRWXO` written out.
unfoldable pub from_mode : ℕ → Permissions
from_mode val = record {
  owner = Class.from_mode (bit_and val 0o700 / 2 ^ 6);
  group = Class.from_mode (bit_and val 0o070 / 2 ^ 3);
  others = Class.from_mode (bit_and val 0o007);
}

-- `octal_string`: `{:03o}`
unfoldable pub octal_string : Permissions → Text
unfolding mode
octal_string p = Radix.pad 3 (Radix.format 8 (mode p))

pub data ParseOctalError : Type 0 where
  parse_octal_error : ParseOctalError

-- `FromStr`: `mode_t::from_str_radix(s, 8)`
unfoldable pub from_str : Text → Result ParseOctalError Permissions
unfolding from_mode
from_str s = do val ← ok_or (Radix.parse 8 (2 ^ 32) s) parse_octal_error; ok (from_mode val)

-- `Serialize`: `{:o}`, with no padding
unfoldable pub serialize : Permissions → Text
unfolding mode
serialize p = Radix.format 8 (mode p)

pub data VisitError : Type 0 where
  invalid_octal : Text → VisitError

-- `Deserialize`, by `PermissionVisitor::visit_string`
unfoldable pub visit_string : Text → Result VisitError Permissions
unfolding from_mode
visit_string v = do val ← ok_or (Radix.parse 8 (2 ^ 32) v) (invalid_octal v); ok (from_mode val)
