-- ===== src/Perms/Modes.antt =====
-- Modes, permissions and their octal texts are read back from one another; the umask's bits.
use Prim.Native.Nat.{bit_and, bit_or}
use supertag.Base.{
  ℕ, ◌-◌, ◌*◌, ◌/◌, ◌%◌, ◌^◌, ◌<◌, ◌≡◌, refl, Bool, true, ◌&&◌, arith, ◌==◌, ==_iff, ok, ◌∙◌, ap,
}
use supertag.Perms.Bits.{bit_and_comm, bit_and_mod, holds_below, holds_below_sound}
use supertag.Perms.Class
use supertag.Perms.Class.{ClassPerms}
use supertag.Perms.Permissions
use supertag.Perms.Permissions.{Permissions}
use supertag.Perms.Umask
use supertag.Perms.Umask.{UMask}
use supertag.Radix.RoundTrip.{parse-format, parse-pad}

class_mode-lt : (c : ClassPerms) → Class.mode c < 8
unfolding Class.mode
class_mode-lt c = ground arith

class_from_mode-mode : (c : ClassPerms) → Class.from_mode (Class.mode c) ≡ c
unfolding Class.mode Class.from_mode
class_from_mode-mode c = ground arith

-- The three digits do not meet: each is cut out of the whole mode.
fields_test : ℕ → ℕ → ℕ → Bool
fields_test a b c =
    let m = bit_or (bit_or (a * 2 ^ 6) (b * 2 ^ 3)) c in
    (bit_and m 0o700 / 2 ^ 6 == a) && (bit_and m 0o070 / 2 ^ 3 == b) && (bit_and m 0o007 == c)

fields_table :
    holds_below 8 (λ a. holds_below 8 (λ b. holds_below 8 (λ c. fields_test a b c))) ≡ true
unfolding holds_below fields_test
fields_table = refl

fields_all : (a b c : ℕ) → a < 8 → b < 8 → c < 8 → fields_test a b c ≡ true
fields_all a b c ha hb hc =
    holds_below_sound 8 (λ c. fields_test a b c) c
      (holds_below_sound 8 (λ b. holds_below 8 (λ c. fields_test a b c)) b
        (holds_below_sound 8 (λ a. holds_below 8 (λ b. holds_below 8 (λ c. fields_test a b c))) a
          fields_table ha)
        hb)
      hc

fields_cut :
    (a b c : ℕ)
    → a < 8
    → b < 8
    → c < 8
    → let m = bit_or (bit_or (a * 2 ^ 6) (b * 2 ^ 3)) c in
      (bit_and m 0o700 / 2 ^ 6 ≡ a) × (bit_and m 0o070 / 2 ^ 3 ≡ b) × (bit_and m 0o007 ≡ c)
unfolding fields_test
fields_cut a b c ha hb hc = ground (arith, fields_all a b c ha hb hc)

-- Permissions survive the way through their mode.
pub from_mode-mode : (p : Permissions) → Permissions.from_mode (Permissions.mode p) ≡ p
unfolding Permissions.from_mode Permissions.mode
from_mode-mode p =
    let (o, g, e) =
      fields_cut (Class.mode p.owner) (Class.mode p.group) (Class.mode p.others)
        (class_mode-lt p.owner) (class_mode-lt p.group) (class_mode-lt p.others) in
    λ i. record {
      owner = (ap Class.from_mode o ∙ class_from_mode-mode p.owner) i;
      group = (ap Class.from_mode g ∙ class_from_mode-mode p.group) i;
      others = (ap Class.from_mode e ∙ class_from_mode-mode p.others) i;
    }

modes_table : holds_below 512 (λ x. Permissions.mode (Permissions.from_mode x) == x) ≡ true
unfolding holds_below Permissions.mode Permissions.from_mode Class.mode Class.from_mode
modes_table = refl

from_mode_mod : (val : ℕ) → Permissions.from_mode val ≡ Permissions.from_mode (val % 512)
unfolding Permissions.from_mode
from_mode_mod val = rw (
  bit_and_mod 9 val 0o700 (omega arith),
  bit_and_mod 9 val 0o070 (omega arith),
  bit_and_mod 9 val 0o007 (omega arith),
)

-- The permissions read from any mode keep its lowest nine bits, and nothing else.
pub mode-from_mode : (val : ℕ) → Permissions.mode (Permissions.from_mode val) ≡ val % 512
mode-from_mode val =
    ap Permissions.mode (from_mode_mod val)
    ∙ (==_iff _ _).0 (
        holds_below_sound 512 (λ x. Permissions.mode (Permissions.from_mode x) == x) (val % 512)
          modes_table (omega arith))

pub mode-lt : (p : Permissions) → Permissions.mode p < 512
mode-lt p =
    let m = Permissions.mode p in
    let e : Permissions.mode (Permissions.from_mode m) ≡ m =
      ap Permissions.mode (from_mode-mode p) in
    omega (arith, mode-from_mode m)

-- The octal text of permissions, padded or not, is parsed to the same permissions by `FromStr`
-- and by the deserializer, as `Ok`.
pub from_str-octal_string :
    (p : Permissions)
    → (Permissions.from_str (Permissions.octal_string p) ≡ ok p)
      × (Permissions.visit_string (Permissions.serialize p) ≡ ok p)
unfolding Permissions.from_str Permissions.octal_string Permissions.visit_string
    Permissions.serialize
from_str-octal_string p =
    let m = Permissions.mode p in
    let small : m < 2 ^ 32 = omega (arith, mode-lt p) in
    (
      rw (parse-pad 8 (omega arith) (2 ^ 32) 3 m small) (ap ok (from_mode-mode p)),
      rw (parse-format 8 (omega arith) (2 ^ 32) m small) (ap ok (from_mode-mode p)),
    )

-- What `!umask` leaves of a mask of nine bits.
umask_bits :
    (mask : ℕ) (u : UMask)
    → mask < 512
    → u.bits < 2 ^ 32
    → bit_and mask (2 ^ 32 - 1 - u.bits) ≡ bit_and (511 - u.bits % 512) mask
umask_bits mask u h k =
    let e : (2 ^ 32 - 1 - u.bits) % 512 ≡ 511 - u.bits % 512 = omega arith in
    bit_and_comm mask _ ∙ bit_and_mod 9 _ mask h ∙ ap (λ x. bit_and x mask) e

dir_table :
    holds_below 512
      (λ x. Permissions.mode (Permissions.from_mode (bit_and (511 - x) 0o777)) == 511 - x)
    ≡ true
unfolding holds_below Permissions.mode Permissions.from_mode Class.mode Class.from_mode
dir_table = refl

file_table :
    holds_below 512 (λ x.
      Permissions.mode (Permissions.from_mode (bit_and (511 - x) 0o666)) == bit_and (511 - x) 0o666)
    ≡ true
unfolding holds_below Permissions.mode Permissions.from_mode Class.mode Class.from_mode
file_table = refl

-- Under a 32-bit umask a new directory gets exactly the nine permission bits that the umask does
-- not name, and a new file the read and write bits of those.
pub umask_perms :
    (u : UMask)
    → u.bits < 2 ^ 32
    → (Permissions.mode (Umask.dir_perms u) ≡ 511 - u.bits % 512)
      × (Permissions.mode (Umask.file_perms u)
          ≡ bit_and (Permissions.mode (Umask.dir_perms u)) 0o666)
unfolding Umask.dir_perms Umask.file_perms
umask_perms u h =
    let x = u.bits % 512 in
    let dir : Permissions.mode (Umask.dir_perms u) ≡ 511 - x =
      rw (umask_bits 0o777 u (omega arith) h)
        ((==_iff _ _).0 (holds_below_sound 512 _ x dir_table (omega arith))) in
    (
      dir,
      rw (dir, umask_bits 0o666 u (omega arith) h)
          ((==_iff _ _).0 (holds_below_sound 512 _ x file_table (omega arith))),
    )
