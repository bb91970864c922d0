-- ===== src/Settings/RoundTrip.antt =====
-- A path that is written from tags is parsed to the same tags.
use supertag.Base.{
  ◌≡◌, ◌≢◌, refl, ap, ◌∙◌, inl, inr, false, List, [], ◌∷◌, map, Option, none, some, arith, Text,
  codes, Lacks, All, text_eq_refl, text_ne→false, starts_with, ok, Option-cases,
}
use supertag.Names.{dot, strip_negative_tag, strip_ext_prefix, has_ext_prefix, set_ext_prefix}
use supertag.Names.ExtPrefix.{strip_ext_prefix-set_ext_prefix, has_ext_prefix-iff-strip}
use supertag.Paths.{normal}
use supertag.Paths.Split.{IsPart, components-join}
use supertag.Settings.{
  Capture, no_capture, capture, capture_letter, filename_to_device_file, plain_tag, device_or_plain,
  determined_tag, tags_from, path_to_tags, inodify, to_path_part,
}
use supertag.Settings.DeviceFiles.{IsDistinct, IsWritable, filename_to_device_file-inodify}
use supertag.Symbols.{Symbols}
use supertag.Tags.Collection.{TagCollection, join_path}
use supertag.Tags.Types.{TagType, regular, negation, group, file_dir, device_file_symlink, symlink}

-- A part that carries none of the marks of negations, groups and file directories.
pub record IsUnmarked (syms : Symbols) (s : Text) : Type 0 where
  pub positive : starts_with s (codes "-") ≡ false
  pub no_group_mark : has_ext_prefix s syms.tag_group_str ≡ false
  pub not_filedir : s ≢ syms.filedir_str
  pub not_filedir_cli : s ≢ syms.filedir_cli_str

-- Symbols that can be told apart in a path.
pub record IsUsable (syms : Symbols) : Type 0 where
  pub distinct : IsDistinct syms
  pub mark_no_dot : Lacks dot syms.tag_group_str
  pub filedir_positive : starts_with syms.filedir_str (codes "-") ≡ false
  pub filedir_no_mark : has_ext_prefix syms.filedir_str syms.tag_group_str ≡ false

-- What the name of a tag must be for its part to be read as that tag behind `prev`.
abbrev pub IsReadable : Symbols → Option TagType → TagType → Type 0
IsReadable syms prev (regular t) =
    IsUnmarked syms t × Lacks syms.device_char t × (prev ≢ some file_dir)
IsReadable syms prev (symlink t) =
    IsUnmarked syms t × Lacks syms.device_char t × (prev ≡ some file_dir)
IsReadable syms prev (negation t) = Unit
IsReadable syms prev (group t) =
    starts_with (set_ext_prefix t syms.tag_group_str) (codes "-") ≡ false
IsReadable syms prev file_dir = Unit
IsReadable syms prev (device_file_symlink df) =
    IsUnmarked syms (inodify syms df) × IsWritable syms df

abbrev pub AreReadable : Symbols → Option TagType → List TagType → Type 0
AreReadable syms prev [] = Unit
AreReadable syms prev (t ∷ rest) =
    IsPart (to_path_part syms t) × IsReadable syms prev t × AreReadable syms (some t) rest

strip_negative_none : (s : Text) → starts_with s (codes "-") ≡ false → strip_negative_tag s ≡ none
unfolding strip_negative_tag
strip_negative_none s h = rw h

strip_negative_some : (s : Text) → strip_negative_tag (b'-' ∷ s) ≡ some s
unfolding strip_negative_tag
strip_negative_some s = unfold starts_with in refl

strip_none : (s mark : Text) → has_ext_prefix s mark ≡ false → strip_ext_prefix s mark ≡ none
strip_none s mark h = elim (Option-cases (strip_ext_prefix s mark)) [
  | inl e ↦ e
  | inr (r, e) ↦ absurd (cc ((has_ext_prefix-iff-strip s mark).1 (r, e)))
]

module _ (syms : Symbols) where
  -- Behind no mark the part is a device file or a plain tag.
  determined_unmarked :
      (prev : Option TagType) (s : Text)
      → IsUnmarked syms s
      → determined_tag syms prev s ≡ device_or_plain (filename_to_device_file syms s) prev s
  unfolding determined_tag
  determined_unmarked prev s u = rw (
    strip_negative_none s u.positive,
    strip_none s syms.tag_group_str u.no_group_mark,
    text_ne→false s syms.filedir_str u.not_filedir,
    text_ne→false s syms.filedir_cli_str u.not_filedir_cli,
    determined_tag,
  )

  -- Without the device character nothing is captured but the name.
  capture-Lacks :
      (s : Text) (c : Capture)
      → Lacks syms.device_char s
      → c.start_device_capture ≡ false
      → c.start_inode_capture ≡ false
      → (capture syms c s).start_inode_capture ≡ false
  unfolding capture
  capture-Lacks [] c h d i = i
  capture-Lacks (x ∷ s) c (hx, h) d i =
      capture-Lacks s (capture_letter syms c x) h (unfold capture_letter in ground arith)
        (unfold capture_letter in ground arith)

  filename_to_device_file-Lacks :
      (s : Text) → Lacks syms.device_char s → filename_to_device_file syms s ≡ ok none
  unfolding filename_to_device_file
  filename_to_device_file-Lacks s h = rw (capture-Lacks s no_capture h refl refl)

  plain_behind :
      (prev : Option TagType) (s : Text) → prev ≢ some file_dir → plain_tag prev s ≡ regular s
  unfolding plain_tag
  plain_behind prev s h = ground arith

  determined_tag-IsReadable :
      (u : IsUsable syms) (prev : Option TagType) (t : TagType)
      → IsReadable syms prev t
      → determined_tag syms prev (to_path_part syms t) ≡ t
  unfolding to_path_part device_or_plain plain_tag
  determined_tag-IsReadable u prev (regular t) (m, lacks, behind) =
      determined_unmarked prev t m
      ∙ rw (filename_to_device_file-Lacks t lacks) (plain_behind prev t behind)
  determined_tag-IsReadable u prev (symlink t) (m, lacks, behind) =
      determined_unmarked prev t m ∙ rw (filename_to_device_file-Lacks t lacks, behind)
  determined_tag-IsReadable u prev (negation t) h =
      unfold determined_tag in rw (strip_negative_some t, determined_tag)
  determined_tag-IsReadable u prev (group t) h =
      unfold determined_tag in
      rw (
        strip_negative_none _ h,
        strip_ext_prefix-set_ext_prefix t syms.tag_group_str u.mark_no_dot,
        determined_tag,
      )
  determined_tag-IsReadable u prev file_dir h =
      unfold determined_tag in
      rw (
        strip_negative_none _ u.filedir_positive,
        strip_none _ _ u.filedir_no_mark,
        text_eq_refl,
        determined_tag,
      )
  determined_tag-IsReadable u prev (device_file_symlink df) (m, w) =
      determined_unmarked prev (inodify syms df) m
      ∙ rw (filename_to_device_file-inodify syms df u.distinct w).0

  tags_from-AreReadable :
      (u : IsUsable syms) (prev : Option TagType) (tags : List TagType)
      → AreReadable syms prev tags
      → tags_from syms prev (map normal (map (to_path_part syms) tags)) ≡ tags
  unfolding tags_from
  tags_from-AreReadable u prev [] h = refl
  tags_from-AreReadable u prev (t ∷ rest) (_, r, h) =
      rw (determined_tag-IsReadable u prev t r)
        (ap (◌∷◌ t) (tags_from-AreReadable u (some t) rest h))

  AreReadable-IsPart :
      (prev : Option TagType) (tags : List TagType)
      → AreReadable syms prev tags
      → All IsPart (map (to_path_part syms) tags)
  AreReadable-IsPart prev [] h = tt
  AreReadable-IsPart prev (t ∷ rest) (p, _, h) = (p, AreReadable-IsPart (some t) rest h)

  -- With usable symbols, a collection whose tags are readable in their order writes a path that is
  -- parsed to exactly its tags.
  pub path_to_tags-join_path :
      (c : TagCollection)
      → IsUsable syms
      → AreReadable syms none c.tags
      → path_to_tags syms (join_path syms c) ≡ c.tags
  unfolding path_to_tags join_path
  path_to_tags-join_path c u h =
      rw (components-join _ (AreReadable-IsPart none c.tags h))
        (tags_from-AreReadable u none c.tags h)
