-- ===== src/Tags/Types.antt =====
-- `DeviceFile` and `TagType`.
use supertag.Base.{ℕ, Text, Bool, ◌&&◌, ◌==◌, text_eq}
use supertag.Rows.{TaggedFile}

pub record DeviceFile : Type 0 where
  pub filename : Text
  pub device : ℕ
  pub inode : ℕ

pub data TagType : Type 0 where
  regular : Text → TagType
  negation : Text → TagType
  group : Text → TagType
  file_dir : TagType
  device_file_symlink : DeviceFile → TagType
  symlink : Text → TagType

-- `DeviceFile::matches`
unfoldable pub matches : DeviceFile → TaggedFile → Bool
matches df tf = text_eq tf.primary_tag df.filename && tf.device == df.device && tf.inode == df.inode

-- `From<TaggedFile>`
unfoldable pub from_tagged_file : TaggedFile → DeviceFile
from_tagged_file tf = record { filename = tf.primary_tag; device = tf.device; inode = tf.inode }
