-- ===== src/Db/View/Purge.antt =====
-- The view after a file is purged.
use supertag.Base.{
  ℕ, ◌≡◌, refl, sym, ap, ◌∙◌, Bool, false, List, map, Option, none, some, Text, All, mem, find,
  select, delete, nat_eq, pair_eq, chars_eq, arith, Bool-cases, inl, inr, if◌then◌else◌,
}
use supertag.Base.Unique
use supertag.Db.Consistent.{IsConsistent, file_id_of, node_of}
use supertag.Db.Lookup.{at_inode, file_id_at, get_tag_id, update_root_mtime}
use supertag.Db.Monad.{Returns}
use supertag.Db.Preserve.Grows.{get_tag_id-update}
use supertag.Db.Preserve.Purge.{purge_devicefile_lem}
use supertag.Db.Remove.{count_down, delete_files, purge_devicefile}
use supertag.Db.Store.{Db, TagRow, FileTagRow}
use supertag.Rows.Int.{◌-ℤ◌}
use supertag.Db.View.{carries, linked_ids, same_node, without_file}
use supertag.Db.View.Deleted.{find-delete, stays, mem-apart}
use supertag.Db.View.Keys.{find_of_file_id_at}
use supertag.Tags.Types.{DeviceFile}
use mathlib.Core.Path.{fun_ext}

module _ (db : Db) (c : IsConsistent db) (node : ℕ × ℕ) where
  abbrev ids_gone : List ℕ
  ids_gone = map file_id_of (select (at_inode node.0 node.1) db.files)

  abbrev links_left : List FileTagRow
  links_left = delete (λ r. mem r.file_id ids_gone) db.file_tag

  links_left_at :
      (n : ℕ × ℕ) (o p : Option ℕ)
      → same_node n node ≡ false
      → file_id_at db n.0 n.1 ≡ o
      → linked_ids links_left o p ≡ linked_ids db.file_tag o p
  links_left_at n none p apart h = refl
  links_left_at n (some j) none apart h = refl
  links_left_at n (some j) (some u) apart h =
      let (f, e, q) = find_of_file_id_at db c n j h in
      let agree : All (Unique.Agrees file_id_of node_of n f.id) db.files =
        Unique.keys_agree file_id_of node_of db.files n f c.file_ids c.file_nodes e in
      mem-apart (λ r. mem r.file_id ids_gone) (j, u) db.file_tag
        (λ r same.
          ap (λ x. mem x ids_gone) (ap (λ (x : ℕ × ℕ). x.0) same ∙ sym q)
          ∙ stays file_id_of node_of n node db.files f.id agree apart)

  file_id_at-purged :
      (b : Db) (n : ℕ × ℕ)
      → b.files ≡ delete (at_inode node.0 node.1) db.files
      → file_id_at b n.0 n.1 ≡ (if same_node n node then none else file_id_at db n.0 n.1)
  unfolding file_id_at
  file_id_at-purged b n files =
      let found : find (at_inode n.0 n.1) b.files
          ≡ (if same_node n node then none else find (at_inode n.0 n.1) db.files) =
        ap (find (at_inode n.0 n.1)) files ∙ find-delete file_id_of node_of n node db.files in
      ground arith

  purged_view :
      (b : Db)
      → b.files ≡ delete (at_inode node.0 node.1) db.files
      → b.file_tag ≡ links_left
      → ((name : Text) → get_tag_id b name ≡ get_tag_id db name)
      → carries b ≡ without_file node (carries db)
  unfolding carries
  purged_view b files links ids = fun_ext λ n. fun_ext λ name.
      ap (λ l. linked_ids l (file_id_at b n.0 n.1) (get_tag_id b name)) links
      ∙ ap (linked_ids links_left (file_id_at b n.0 n.1)) (ids name)
      ∙ ap (λ o. linked_ids links_left o (get_tag_id db name)) (file_id_at-purged b n files)
      ∙ (elim (Bool-cases (same_node n node)) [
        | inl e ↦ rw e (ground arith)
        | inr e ↦
            rw e
              (links_left_at n (file_id_at db n.0 n.1) (get_tag_id db name) e refl ∙ ground arith)
      ])

-- `purge_devicefile` takes all tags from the file, and changes nothing else in the view.
pub purge_devicefile-carries :
    (df : DeviceFile) (now : ℕ) (db : Db)
    → IsConsistent db
    → Returns
        (λ _ db'.
          IsConsistent db' × (carries db' ≡ without_file (df.device, df.inode) (carries db)))
        (purge_devicefile df now db)
unfolding purge_devicefile count_down delete_files update_root_mtime get_tag_id
purge_devicefile-carries df now db c =
    let gone = ids_gone db c (df.device, df.inode) in
    let hit : TagRow → Bool =
      λ t. mem t.id (map (λ r. r.tag_id) (select (λ r. mem r.file_id gone) db.file_tag)) in
    (
      (purge_devicefile_lem df now db c).0,
      purged_view db c (df.device, df.inode) _ refl refl
          (λ name.
            get_tag_id-update db hit (λ t. record t { num_files = t.num_files -ℤ 1 }) name
              (λ t. refl) (λ t. refl)),
    )
