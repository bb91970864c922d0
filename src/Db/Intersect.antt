-- ===== src/Db/Intersect.antt =====
-- The operations on the files and tags of a path: `remove_links`, the removals from an intersection,
-- and `merge_tags`.
pub mod Chunks
pub mod Removal
pub mod Links
use supertag.Base.{
  ℕ, Bool, true, false, ◌&&◌, List, [], ◌∷◌, ◌++◌, map, none, some, Text, ◌==◌, length, text_eq,
  select, update, delete, mem, nat_eq, pair_eq,
}
use supertag.Db.Intersect.Chunks.{chunks}
use supertag.Db.Link.{link_key}
use supertag.Db.Lookup.{get_tag_id, get_tag_group_id, update_tag_mtime, update_root_mtime}
use supertag.Db.Monad.{Sql, pure, gets, modify, or_fail, ◌>>=◌, ◌>>◌}
use supertag.Db.Remove.{unlink_tags}
use supertag.Db.Select.Files.{files_tagged_with, contains_file}
use supertag.Db.Select.Tags.{intersect_tag}
use supertag.Db.Store.{FileTagRow, GroupTagRow, Engine}
use supertag.Errors.{query_returned_no_rows}
use supertag.Perms.Permissions
use supertag.Rows.{TaggedFile}
use supertag.Rows.Int.{◌-ℤ◌}
use supertag.Tags.Collect.{collect_regular_names}
use supertag.Tags.Types.{TagType}

unfoldable pub remove_links : Text → List TagType → ℕ → Sql (List ℕ)
remove_links primary_tag tags now = do
  maybe_tf ← contains_file tags (λ tf. text_eq tf.primary_tag primary_tag)
  elim maybe_tf [
    | none ↦ pure []
    | some tf ↦ do
      all_removed_ids ← unlink_tags tf.id (collect_regular_names tags)
      update_root_mtime now
      pure all_removed_ids
  ]

-- `tag_id IN (…) AND tg_id=?1`
abbrev pub in_group_chunk : ℕ → List ℕ → GroupTagRow → Bool
in_group_chunk tg_id ids r = mem r.tag_id ids && r.tg_id == tg_id

unfoldable pub ungroup_chunks : ℕ → List (List ℕ) → Sql (Unit {0})
ungroup_chunks tg_id [] = pure tt
ungroup_chunks tg_id (ids ∷ rest) = do
  modify (λ db. record db { tag_group_tag = delete (in_group_chunk tg_id ids) db.tag_group_tag })
  ungroup_chunks tg_id rest

unfoldable pub remove_taggroup_from_itersection : Text → List TagType → Sql (Unit {0})
unfolding ungroup_chunks
remove_taggroup_from_itersection group intersect = do
  maybe_id ← gets (λ db. get_tag_group_id db group)
  tg_id ← or_fail maybe_id query_returned_no_rows
  isect_tags ← intersect_tag intersect true
  ungroup_chunks tg_id (chunks 500 (map (λ t. t.id) isect_tags))

-- `file_id IN (…) AND tag_id=?1`
abbrev pub in_chunk : ℕ → List ℕ → FileTagRow → Bool
in_chunk tag_id ids r = mem r.file_id ids && r.tag_id == tag_id

unfoldable pub remove_chunk : ℕ → List ℕ → Sql (Unit {0})
remove_chunk tag_id ids = do
  removed ← gets (λ db. length (select (in_chunk tag_id ids) db.file_tag))
  modify (λ db. record db { file_tag = delete (in_chunk tag_id ids) db.file_tag })
  modify (λ db. record db {
    tags =
        update (λ t. t.id == tag_id) (λ t. record t { num_files = t.num_files -ℤ removed }) db.tags;
  })

unfoldable pub remove_chunks : ℕ → List (List ℕ) → Sql (Unit {0})
remove_chunks tag_id [] = pure tt
remove_chunks tag_id (ids ∷ rest) = do remove_chunk tag_id ids; remove_chunks tag_id rest

abbrev pub ids_of : List TaggedFile → List ℕ
ids_of files = map (λ f. f.id) files

unfoldable pub remove_tag_from_intersection : Text → List TagType → ℕ → Sql (List TaggedFile)
remove_tag_from_intersection tag intersect now = do
  files ← files_tagged_with intersect
  maybe_id ← gets (λ db. get_tag_id db tag)
  tag_id ← or_fail maybe_id query_returned_no_rows
  remove_chunks tag_id (chunks 500 (ids_of files))
  update_root_mtime now
  pure files

module _ (engine : Engine) where
  -- `INSERT OR IGNORE INTO file_tag`: a missing tag and an existing pair are both ignored. The file
  -- exists, since the query of the same transaction returned it.
  unfoldable pub relink_file : Text → ℕ → TaggedFile → Sql (Unit {0})
  relink_file new_tag now tf = do
    maybe_id ← gets (λ db. get_tag_id db new_tag)
    elim maybe_id [
      | none ↦ pure tt
      | some tag_id ↦ do
        taken ← gets (λ db. mem (tf.id, tag_id) (map link_key db.file_tag))
        elim taken [
          | true ↦ pure tt
          | false ↦ modify (λ db. record db {
            file_tag =
                db.file_tag
                ++ record {
                  rowid = engine.new_id (map (λ r. r.rowid) db.file_tag);
                  file_id = tf.id;
                  tag_id = tag_id;
                  ts = now;
                  mtime = now;
                  uid = tf.uid;
                  gid = tf.gid;
                  permissions = Permissions.mode tf.permissions;
                }
                  ∷ [];
          })
        ]
    ]

  unfoldable pub relink_files : Text → ℕ → List TaggedFile → Sql (Unit {0})
  relink_files new_tag now [] = pure tt
  relink_files new_tag now (tf ∷ removed) = do
    relink_file new_tag now tf
    relink_files new_tag now removed

  unfoldable pub relink_tags : List Text → ℕ → List TaggedFile → Sql (Unit {0})
  unfolding relink_files
  relink_tags [] now removed = pure tt
  relink_tags (new_tag ∷ dst_tags) now removed = do
    relink_files new_tag now removed
    update_tag_mtime new_tag now
    relink_tags dst_tags now removed

  unfoldable pub merge_tags : Text → List TagType → List Text → ℕ → Sql (Unit {0})
  unfolding relink_tags
  merge_tags src_tag src_tags dst_tags now = do
    removed ← remove_tag_from_intersection src_tag src_tags now
    relink_tags dst_tags now removed
    update_root_mtime now
