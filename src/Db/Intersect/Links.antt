-- ===== src/Db/Intersect/Links.antt =====
-- `remove_links`: the file of a name below a path loses the tags of the path.
use supertag.Base.{
  ℕ, ◌≡◌, refl, false, List, Option, none, some, Text, All, find, select, text_eq, Option-cases,
  inl, inr,
}
use supertag.Db.Consistent.{IsConsistent, root-IsConsistent}
use supertag.Db.Intersect.{remove_links}
use supertag.Db.Lookup.{get_tag_id, update_root_mtime}
use supertag.Db.Monad.{Returns, Returns-bind}
use supertag.Db.Preserve.RemoveFile.{IsUnlinked, unlink_tags_lem}
use supertag.Db.Preserve.Unlink.{of_others}
use supertag.Db.Query.{intersects_of, excepts_of}
use supertag.Db.Remove.{unlink_tags}
use supertag.Db.Select.Files.{contains_file, files_tagged_with}
use supertag.Db.Select.Found.{only_negated, found_rows, files_tagged_with-done}
use supertag.Db.Store.{Db}
use supertag.Rows.{TaggedFile}
use supertag.Tags.Collect.{collect_regular_names}
use supertag.Tags.Types.{TagType}

module _ (primary_tag : Text) (tags : List TagType) (now : ℕ) (db : Db) where
  -- The file that is meant: the first of the path's that has the name.
  abbrev pub file_of : Option TaggedFile
  file_of = find (λ tf. text_eq tf.primary_tag primary_tag) (found_rows tags db)

  -- What becomes of the links and files.
  abbrev pub UnlinksFrom : Option TaggedFile → Db → Type 0
  UnlinksFrom none db' = db' ≡ db
  UnlinksFrom (some tf) db' =
      All (IsUnlinked db' tf.id) (collect_regular_names tags)
      × (select (of_others tf.id) db'.file_tag ≡ select (of_others tf.id) db.file_tag)
      × (db'.files ≡ db.files)

  -- For consistent tables and a path of not only negated tags, `remove_links` succeeds and leaves
  -- consistent tables: if one of the path's files has the name, that file is linked to no regular tag
  -- of the path, and the links of all other files and the files are as before; if none has, nothing
  -- changes.
  pub remove_links_lem :
      IsConsistent db
      → only_negated (intersects_of tags) (excepts_of tags) ≡ false
      → Returns
          (λ _ db'. IsConsistent db' × UnlinksFrom file_of db')
          (remove_links primary_tag tags now db)
  unfolding remove_links contains_file files_tagged_with update_root_mtime get_tag_id
  remove_links_lem c k = rw (files_tagged_with-done tags db k) (elim (Option-cases file_of) [
    | inl e ↦ rw e (c, refl)
    | inr (tf, e) ↦ rw e (
        Returns-bind _ _ (unlink_tags tf.id (collect_regular_names tags)) _ db
          (unlink_tags_lem tf.id (collect_regular_names tags) db c)
          (λ _ db1 (c1, us, g). (root-IsConsistent db1 now c1, (us, g.others, g.same_files))))
  ])
