-- ===== src/Perms/Tests.antt =====
-- Examples for the permissions.
use supertag.Base.{◌≡◌, refl, true, false, ok, err, codes}
use supertag.Perms.Class
use supertag.Perms.Class.{ClassPerms}
use supertag.Perms.Modes.{from_str-octal_string}
use supertag.Perms.Permissions
use supertag.Perms.Permissions.{Permissions, parse_octal_error}
use supertag.Perms.Umask.{UMask}
use supertag.Radix

abbrev rwx : ClassPerms
rwx = record { read = true; write = true; execute = true }

abbrev rx : ClassPerms
rx = record { read = true; write = false; execute = true }

abbrev usual : Permissions
usual = record { owner = rwx; group = rx; others = rx }

usual-mode : Permissions.mode usual ≡ 0o755
unfolding Permissions.mode Class.mode
usual-mode = refl

usual_octal : Permissions.octal_string usual ≡ codes "755"
unfolding Permissions.octal_string Permissions.mode Class.mode Radix.format Radix.pad
usual_octal = refl

not_octal : Permissions.from_str (codes "9") ≡ err parse_octal_error
unfolding Permissions.from_str Radix.parse
not_octal = refl

from_str-octal_string_example :
    (Permissions.from_str (Permissions.octal_string usual) ≡ ok usual)
    × (Permissions.visit_string (Permissions.serialize usual) ≡ ok usual)
from_str-octal_string_example = from_str-octal_string usual

abbrev common_umask : UMask
common_umask = record { bits = 0o022 }
