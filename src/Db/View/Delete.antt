-- ===== src/Db/View/Delete.antt =====
-- The view after tags are removed from a file.
use supertag.Base.{
  ℕ, ◌≡◌, refl, ap, ◌∙◌, Bool, not, ◌&&◌, List, [], ◌∷◌, map, Option, none, some, Text, mem, select,
  delete, ◌==◌, ==_iff, nat_eq, pair_eq, chars_eq, text_eq, text_eq_iff, arith, Bool-cases,
  Option-cases, inl, inr,
}
use supertag.Db.Consistent.{IsConsistent, root-IsConsistent}
use supertag.Db.Link.{link_key}
use supertag.Db.Lookup.{named, file_id_at, get_tag_id, update_root_mtime}
use supertag.Db.Monad.{Returns, Ensures, Returns-bind}
use supertag.Db.Preserve.Grows.{get_tag_id-update}
use supertag.Db.Preserve.RemoveFile.{unlink_tag_lem}
use supertag.Db.Preserve.Unlink.{unlinked, unlink_tag-none, unlink_tag-nil, unlink_tag-some}
use supertag.Db.Remove.{is_link, is_nil, unlink_tag, unlink_tags, remove_devicefile}
use supertag.Db.Store.{Db, FileTagRow}
use supertag.Db.View.{carries, linked_ids, same_node, without_tag, each}
use supertag.Db.View.AddFile.{both}
use supertag.Db.View.Keys.{carries-root, carries-change, file_id_at-files}
use supertag.Tags.Types.{DeviceFile}
use mathlib.Core.Path.{fun_ext}

mem-unlinked :
    (i t : ℕ) (rows : List FileTagRow) (k : ℕ × ℕ)
    → mem k (map link_key (delete (is_link i (some t)) rows))
      ≡ (mem k (map link_key rows) && not (i == k.0 && t == k.1))
unfolding mem delete
mem-unlinked i t [] k = refl
mem-unlinked i t (r ∷ rows) k = ground (
  arith,
  mem-unlinked i t rows k,
  ==_iff r.file_id i,
  ==_iff r.tag_id t,
  ==_iff r.file_id k.0,
  ==_iff r.tag_id k.1,
  ==_iff i k.0,
  ==_iff t k.1,
)

abbrev and_not : Bool → Bool → Bool
and_not a b = a && not b

-- A tag that does not exist is carried by no file.
absent-carries :
    (db : Db) (node : ℕ × ℕ) (tag : Text)
    → get_tag_id db tag ≡ none
    → carries db ≡ without_tag node tag (carries db)
unfolding carries
absent-carries db node tag h = fun_ext λ n. fun_ext λ name. elim (Bool-cases (text_eq name tag)) [
  | inl e ↦
      let gone : get_tag_id db name ≡ none = ap (get_tag_id db) ((text_eq_iff name tag).0 e) ∙ h in
      rw gone (no_tag (file_id_at db n.0 n.1) (same_node n node && text_eq name tag))
  | inr e ↦ rw e (ground arith)
]
  where
    no_tag :
        (o : Option ℕ) (b : Bool)
        → linked_ids db.file_tag o none ≡ (linked_ids db.file_tag o none && not b)
    no_tag none b = refl
    no_tag (some i) b = refl

module _ (node : ℕ × ℕ) (file_id : ℕ) where
  unlink_tag-carries :
      (tag : Text) (db : Db)
      → IsConsistent db
      → file_id_at db node.0 node.1 ≡ some file_id
      → Ensures
          (λ _ db'. carries db' ≡ without_tag node tag (carries db))
          (unlink_tag file_id tag db)
  unfolding unlinked get_tag_id
  unlink_tag-carries tag db c hi = elim (Option-cases (get_tag_id db tag)) [
    | inl e ↦ rw (unlink_tag-none file_id tag db e) (absent-carries db node tag e)
    | inr (t, e) ↦
        elim (Bool-cases
          (is_nil (map (λ r. r.rowid) (select (is_link file_id (some t)) db.file_tag)))) [
            | inl q ↦ rw (unlink_tag-nil file_id tag db t e q) (
                carries-change and_not refl db _ c node tag file_id t hi e refl (λ name. refl)
                  (mem-unlinked file_id t db.file_tag))
            | inr q ↦ rw (unlink_tag-some file_id tag db t e q) (
                carries-change and_not refl db _ c node tag file_id t hi e refl
                  (λ name. get_tag_id-update db (named tag) _ name (λ t. refl) (λ t. refl))
                  (mem-unlinked file_id t db.file_tag))
          ]
  ]

  unlink_tags-carries :
      (tags : List Text) (db : Db)
      → IsConsistent db
      → file_id_at db node.0 node.1 ≡ some file_id
      → Returns
          (λ _ db'. IsConsistent db' × (carries db' ≡ each (without_tag node) tags (carries db)))
          (unlink_tags file_id tags db)
  unfolding unlink_tags
  unlink_tags-carries [] db c hi = (c, refl)
  unlink_tags-carries (tag ∷ tags) db c hi =
      Returns-bind _ _ (unlink_tag file_id tag) _ db
        (both _ _ _ (unlink_tag_lem file_id tag db c) (unlink_tag-carries tag db c hi))
        (λ _ db1 ((c1, u, g), view).
          Returns-bind _ _ (unlink_tags file_id tags) _ db1
            (unlink_tags-carries tags db1 c1 (file_id_at-files db db1 node g.same_files ∙ hi))
            (λ _ db2 (c2, rest). (c2, rest ∙ ap (each (without_tag node) tags) view)))

-- `remove_devicefile` takes its tags from the file, and changes nothing else in the view.
pub remove_devicefile-carries :
    (df : DeviceFile) (tags : List Text) (now : ℕ) (db : Db) (file_id : ℕ)
    → IsConsistent db
    → file_id_at db df.device df.inode ≡ some file_id
    → Returns
        (λ _ db'.
          IsConsistent db'
          × (carries db' ≡ each (without_tag (df.device, df.inode)) tags (carries db)))
        (remove_devicefile df tags now db)
unfolding remove_devicefile update_root_mtime
remove_devicefile-carries df tags now db file_id c h = rw h (
    Returns-bind _ _ (unlink_tags file_id tags) _ db
      (unlink_tags-carries (df.device, df.inode) file_id tags db c h)
      (λ _ db1 (c1, view). (root-IsConsistent db1 now c1, carries-root db1 now ∙ view)))
