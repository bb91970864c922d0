-- ===== src/Fuse/Stat.antt =====
-- fuse/util.rs on Linux: what a stat reports, and the options for opening a file.
use Prim.Native.Nat.{bit_and, bit_or}
use supertag.Base.{ℕ, ◌+◌, Bool, true, false, List, [], ◌∷◌, ◌++◌, Text, ltb, if◌then◌else◌, ◌==◌}
use supertag.Perms.Permissions
use supertag.Perms.Permissions.{Permissions}
use supertag.Rows.{TaggedFile}
use supertag.Rows.Int.{ℤ, pos}

-- DEVICE_ID
abbrev pub device_id : ℕ
device_id = 63

-- Of libc
abbrev pub s_ifdir : ℕ
s_ifdir = 0o40000

abbrev pub s_iflnk : ℕ
s_iflnk = 0o120000

abbrev pub s_ifreg : ℕ
s_ifreg = 0o100000

pub record Stat : Type 0 where
  pub device : ℕ
  pub inode : ℕ
  pub mode : ℕ
  pub nlink : ℕ
  pub uid : ℕ
  pub gid : ℕ
  pub size : ℤ
  pub atime : ℕ
  pub mtime : ℕ
  pub ctime : ℕ
  pub blksize : ℕ
  pub blocks : ℕ

-- `From<Stat> for stat` adds the block size and the number of blocks.
abbrev pub stat_of : ℕ → ℕ → ℕ → ℕ → ℤ → ℕ → Stat
stat_of mode nlink uid gid size mtime = record {
  device = device_id;
  inode = 1;
  mode = mode;
  nlink = nlink;
  uid = uid;
  gid = gid;
  size = size;
  atime = mtime;
  mtime = mtime;
  ctime = mtime;
  blksize = 4096;
  blocks = 8;
}

unfoldable pub new_dir : ℕ → ℕ → ℕ → Permissions → ℤ → Stat
new_dir mtime uid gid perm num_files =
    stat_of (bit_or s_ifdir (Permissions.mode perm)) 2 uid gid num_files mtime

unfoldable pub new_link : ℕ → ℕ → ℕ → Permissions → ℕ → Stat
new_link mtime uid gid perm size =
    stat_of (bit_or s_iflnk (Permissions.mode perm)) 1 uid gid (pos size) mtime

unfoldable pub new_regfile : ℕ → ℕ → ℕ → Permissions → ℕ → Stat
new_regfile mtime uid gid perm size =
    stat_of (bit_or s_ifreg (Permissions.mode perm)) 1 uid gid (pos size) mtime

unfoldable pub new_alias : ℕ → ℕ → ℕ → ℕ → ℕ → ℕ → Stat
new_alias mtime ctime size uid gid mode = record (stat_of mode 1 uid gid (pos size) mtime) {
  ctime = ctime;
}

-- The bytes that UTF-8 takes for a code point, and `len` of a text
abbrev pub utf8_len : ℕ → ℕ
utf8_len c = if ltb c 0x80 then 1 else if ltb c 0x800 then 2 else if ltb c 0x10000 then 3 else 4

unfoldable pub byte_len : Text → ℕ
byte_len [] = 0
byte_len (c ∷ s) = utf8_len c + byte_len s

unfoldable pub new_statfile : TaggedFile → Stat
unfolding new_link
new_statfile tf = new_link tf.mtime tf.uid tf.gid tf.permissions (byte_len tf.path)

unfoldable pub db_file : ℕ → ℕ → ℕ → Stat
unfolding new_link
db_file uid gid mtime = new_link mtime uid gid (Permissions.from_mode 0o777) 0

-- `OpenOptions`, by what is asked for
pub record OpenOptions : Type 0 where
  pub read : Bool
  pub write : Bool

abbrev pub o_wronly : ℕ
o_wronly = 1

abbrev pub o_rdwr : ℕ
o_rdwr = 2

unfoldable pub open_opts_from_mode : ℕ → OpenOptions
open_opts_from_mode mode =
    if ltb 0 (bit_and mode o_rdwr)
    then record { read = true; write = true }
    else if ltb 0 (bit_and mode o_wronly)
    then record { read = false; write = true }
    else record { read = true; write = false }

-- The names in the buffer of `listxattr`: the chunks between zeros, without the empty ones.
unfoldable pub attr_names : List ℕ → List ℕ → List (List ℕ)
attr_names [] [] = []
attr_names (c ∷ chunk) [] = (c ∷ chunk) ∷ []
attr_names [] (b ∷ buf) =
    let skip = attr_names [] buf in
    let grow = attr_names (b ∷ []) buf in if b == 0 then skip else grow
attr_names (c ∷ chunk) (b ∷ buf) =
    let cut = attr_names [] buf in
    let grow = attr_names ((c ∷ chunk) ++ b ∷ []) buf in if b == 0 then (c ∷ chunk) ∷ cut else grow
