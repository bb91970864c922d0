-- ===== src/Symbols.antt =====
-- common/settings/config.rs: the symbols that mark the parts of a path.
use supertag.Base.{ℕ, [], ◌∷◌, Text, codes}

pub record Symbols : Type 0 where
  pub device_char : ℕ
  pub inode_char : ℕ
  pub sync_char : ℕ
  pub filedir_str : Text
  pub filedir_cli_str : Text
  pub tag_group_str : Text

-- DEFAULT_CONFIG_TOML of common/constants.rs
abbrev pub default_symbols : Symbols
default_symbols = record {
  device_char = 0xfe6b;
  inode_char = b'-';
  sync_char = 0x7f;
  filedir_str = 0x22c2 ∷ [];
  filedir_cli_str = codes "_";
  tag_group_str = codes "+";
}
