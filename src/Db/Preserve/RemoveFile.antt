-- ===== src/Db/Preserve/RemoveFile.antt =====
-- `remove_devicefile` keeps the tables consistent and unlinks the file from every tag of its list.
use supertag.Base.{
  ℕ, ◌≡◌, refl, sym, ap, ◌∙◌, Bool, true, false, not, List, [], ◌∷◌, map, Option, none, some, arith,
  Text, All, mem, select, delete, nat_eq, pair_eq, Option-cases, Bool-cases, inl, inr,
}
use supertag.Base.Deletion
use supertag.Db.Consistent.{IsConsistent, root-IsConsistent}
use supertag.Db.Link.{link_key}
use supertag.Db.Lookup.{named, get_tag_id, file_id_at, update_root_mtime}
use supertag.Db.Monad.{Returns, Returns-bind}
use supertag.Db.Preserve.Grows.{find_of_get_tag_id, get_tag_id-update}
use supertag.Db.Preserve.Unlink.{
  of_others, unlinked, unlinked-IsConsistent, unlink_tag-none, unlink_tag-nil, unlink_tag-some,
  Shrinks, Shrinks-refl, Shrinks-trans, select-unlink, mem-unlink, delete-nil,
}
use supertag.Db.Remove.{is_link, is_nil, unlink_tag, unlink_tags, remove_devicefile}
use supertag.Db.Store.{Db}
use supertag.Tags.Types.{DeviceFile}

abbrev is_apart : ℕ → List (ℕ × ℕ) → Option ℕ → Bool
is_apart file_id keys none = true
is_apart file_id keys (some i) = not (mem (file_id, i) keys)

-- No tag of the name is linked to the file.
abbrev pub IsUnlinked : Db → ℕ → Text → Type 0
IsUnlinked db file_id tag = is_apart file_id (map link_key db.file_tag) (get_tag_id db tag) ≡ true

Shrinks-IsUnlinked :
    (file_id : ℕ) (a b : Db) (tag : Text)
    → Shrinks file_id a b
    → IsUnlinked a file_id tag
    → IsUnlinked b file_id tag
Shrinks-IsUnlinked file_id a b tag g h = elim (Option-cases (get_tag_id a tag)) [
  | inl e ↦ rw (g.same_ids tag, e) refl
  | inr (i, e) ↦
      let k : mem (file_id, i) (map link_key a.file_tag) ≡ false = ground arith in
      rw (g.same_ids tag, e, g.unlinked_stay (file_id, i) k) refl
]

module _ (file_id : ℕ) (tag : Text) where
  -- What one round does.
  abbrev Unlinks : Db → List ℕ → Db → Type 0
  Unlinks db _ db' = IsConsistent db' × IsUnlinked db' file_id tag × Shrinks file_id db db'

  unlinked-Shrinks : (db : Db) (i : ℕ) → Shrinks file_id db (unlinked file_id tag db i)
  unfolding unlinked get_tag_id
  unlinked-Shrinks db i = record {
    same_files = refl;
    same_ids = λ name. get_tag_id-update db (named tag) _ name (λ t. refl) (λ t. refl);
    unlinked_stay = λ k. Deletion.mem-delete link_key (is_link file_id (some i)) k db.file_tag;
    others = select-unlink file_id i db.file_tag;
  }

  unlinked-IsUnlinked :
      (db : Db) (i : ℕ)
      → get_tag_id db tag ≡ some i
      → IsUnlinked (unlinked file_id tag db i) file_id tag
  unfolding unlinked
  unlinked-IsUnlinked db i e =
      rw ((unlinked-Shrinks db i).same_ids tag, e) (rw (mem-unlink file_id i db.file_tag) refl)

  pub unlink_tag_lem :
      (db : Db) → IsConsistent db → Returns (Unlinks db) (unlink_tag file_id tag db)
  unlink_tag_lem db c = elim (Option-cases (get_tag_id db tag)) [
    | inl e ↦ rw (unlink_tag-none file_id tag db e) (c, rw e refl, Shrinks-refl file_id db)
    | inr (i, e) ↦
        elim (Bool-cases
          (is_nil (map (λ r. r.rowid) (select (is_link file_id (some i)) db.file_tag)))) [
            | inl q ↦
                let same : delete (is_link file_id (some i)) db.file_tag ≡ db.file_tag =
                  delete-nil _ db.file_tag q in
                rw (unlink_tag-nil file_id tag db i e q, same)
                  (
                    c,
                    rw e (
                        rw
                          (sym (ap (λ rows. mem (file_id, i) (map link_key rows)) same)
                            ∙ mem-unlink file_id i db.file_tag)
                          refl),
                    Shrinks-refl file_id db,
                  )
            | inr q ↦
                let (t, h, j) = find_of_get_tag_id db tag i e in
                rw (unlink_tag-some file_id tag db i e q) (
                  rw (sym j) (unlinked-IsConsistent file_id tag db t c h),
                  unlinked-IsUnlinked db i e,
                  unlinked-Shrinks db i,
                )
          ]
  ]

pub unlink_tags_lem :
    (file_id : ℕ) (tags : List Text) (db : Db)
    → IsConsistent db
    → Returns
        (λ _ db'. IsConsistent db' × All (IsUnlinked db' file_id) tags × Shrinks file_id db db')
        (unlink_tags file_id tags db)
unfolding unlink_tags
unlink_tags_lem file_id [] db c = (c, tt, Shrinks-refl file_id db)
unlink_tags_lem file_id (tag ∷ tags) db c =
    Returns-bind _ _ (unlink_tag file_id tag) _ db (unlink_tag_lem file_id tag db c)
      (λ _ db1 (c1, u, g).
        Returns-bind _ _ (unlink_tags file_id tags) _ db1 (unlink_tags_lem file_id tags db1 c1)
          (λ _ db2 (c2, us, h). (
            c2,
            (Shrinks-IsUnlinked file_id db1 db2 tag h u, us),
            Shrinks-trans file_id db db1 db2 g h,
          )))

-- For consistent tables and a file that exists, `remove_devicefile` always succeeds: the file is
-- linked to no tag of the list, the links of all other files and the files are as before, and the
-- tables are consistent, so that `num_files` counts the links that are left.
pub remove_devicefile_lem :
    (df : DeviceFile) (tags : List Text) (now : ℕ) (db : Db) (file_id : ℕ)
    → IsConsistent db
    → file_id_at db df.device df.inode ≡ some file_id
    → Returns
        (λ _ db'.
          IsConsistent db'
          × All (IsUnlinked db' file_id) tags
          × (select (of_others file_id) db'.file_tag ≡ select (of_others file_id) db.file_tag)
          × (db'.files ≡ db.files))
        (remove_devicefile df tags now db)
unfolding remove_devicefile update_root_mtime get_tag_id
remove_devicefile_lem df tags now db file_id c h = rw h (
    Returns-bind _ _ (unlink_tags file_id tags) _ db (unlink_tags_lem file_id tags db c)
      (λ _ db1 (c1, us, g). (root-IsConsistent db1 now c1, us, g.others, g.same_files)))
