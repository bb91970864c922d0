-- ===== src/Db/View/AddFile.antt =====
-- The view after `add_file`.
use supertag.Base.{
  ℕ, ◌≡◌, refl, ap, ◌∙◌, List, [], ◌∷◌, ◌++◌, Option, some, Text, find, Option-cases, inl, inr,
}
use supertag.Base.Unique.{is_some}
use supertag.Db.Consistent.{IsConsistent, root-IsConsistent}
use supertag.Db.Ensure.{ensure_tag}
use supertag.Db.Link.{link_file_to_tag, insert_file, link_tags, add_file}
use supertag.Db.Lookup.{at_inode, file_id_at, get_tag_id, update_root_mtime}
use supertag.Db.Monad.{Outcome, done, failed, panicked, Returns, Ensures, Returns-bind}
use supertag.Db.Preserve.AddFile.{
  IsAddable, insert_file_taken, insert_file_new, new_file, new_file-IsConsistent, neither_found,
  either_found, insert_file_lem,
}
use supertag.Db.Preserve.Ensure.{ensure_tag-Grows}
use supertag.Db.Preserve.Grows.{find-append}
use supertag.Db.Preserve.Link.{link-Grows, file_id_at_of_find}
use supertag.Db.Store.{Db, Engine, IsFresh}
use supertag.Db.View.{carries, with_tag, each}
use supertag.Db.View.Insert.{carries-kept, link_file_to_tag-carries}
use supertag.Db.View.Keys.{file_id_at-files, find_of_file_id_at, carries-root}
use supertag.Perms.Umask
use supertag.Perms.Umask.{UMask}

pub both :
    {E A : Type 0} (P Q : A → Db → Type 0) (r : Outcome E A)
    → Returns P r
    → Ensures Q r
    → Returns (λ a db. P a db × Q a db) r
both P Q (done a db) p q = (p, q)
both P Q (failed e) p q = p
both P Q panicked p q = p

module _ (engine : Engine) (fresh : IsFresh engine) (node : ℕ × ℕ) (path primary_tag : Text)
    (uid gid : ℕ) (umask : UMask) (now : ℕ) (alias_file : Option Text) where
  link_tags-carries :
      (tags : List Text) (db : Db) (file_id : ℕ)
      → IsConsistent db
      → file_id_at db node.0 node.1 ≡ some file_id
      → Returns
          (λ _ db'. IsConsistent db' × (carries db' ≡ each (with_tag node) tags (carries db)))
          (link_tags engine node.0 node.1 path primary_tag uid gid umask now alias_file tags db)
  unfolding link_tags
  link_tags-carries [] db file_id c h = (c, refl)
  link_tags-carries (tag ∷ tags) db file_id c h =
      Returns-bind _ _ (ensure_tag engine tag uid gid (Umask.dir_perms umask) now) _ db
        (ensure_tag-Grows engine fresh tag uid gid (Umask.dir_perms umask) now db c)
        (λ r db1 (c1, q, i, l, g).
          let known : file_id_at db1 node.0 node.1 ≡ some file_id =
            file_id_at-files db db1 node g.same_files ∙ h in
          let named_so : get_tag_id db1 r.0 ≡ some r.1 = ap (get_tag_id db1) q ∙ i in
          let same : carries db1 ≡ carries db =
            carries-kept db db1 c c1 (λ n j e. file_id_at-files db db1 n g.same_files ∙ e)
              g.ids_stay l in
          Returns-bind _ _
            (link_file_to_tag engine node.0 node.1 r.0 uid gid (Umask.file_perms umask) now) _ db1
            (both _ _ _
              (link-Grows engine node.0 node.1 r.0 uid gid (Umask.file_perms umask) now db1 file_id
                r.1 c1 known named_so)
              (link_file_to_tag-carries engine node r.0 uid gid (Umask.file_perms umask) now db1
                file_id r.1 c1 known named_so))
            (λ _ db2 ((c2, m, i2, g2), added).
              let view : carries db2 ≡ with_tag node tag (carries db) =
                added ∙ ap (λ t. with_tag node t (carries db1)) q ∙ ap (with_tag node tag) same in
              Returns-bind _ _
                (link_tags engine node.0 node.1 path primary_tag uid gid umask now alias_file tags)
                _ db2
                (link_tags-carries tags db2 file_id c2
                  (file_id_at-files db1 db2 node g2.same_files ∙ known))
                (λ tagged db3 (c3, rest). (c3, rest ∙ ap (each (with_tag node) tags) view))))

  abbrev pub IsAddableTo : Db → Type 0
  IsAddableTo = IsAddable engine fresh node.0 node.1 path primary_tag uid gid umask now alias_file

  insert_file-carries :
      (db : Db)
      → IsConsistent db
      → IsAddableTo db
      → Ensures
          (λ _ db'. carries db' ≡ carries db)
          (insert_file engine node.0 node.1 path primary_tag now alias_file db)
  unfolding get_tag_id
  insert_file-carries db c a = elim (Option-cases (find (at_inode node.0 node.1) db.files)) [
    | inr (f, e) ↦
        rw
          (insert_file_taken engine fresh node.0 node.1 path primary_tag uid gid umask now
            alias_file db
            (either_found engine fresh node.0 node.1 path primary_tag uid gid umask now alias_file
              db.files (ap is_some e)))
          refl
    | inl e ↦ elim a [
      | inl k ↦ absurd (cc (ap is_some e))
      | inr k ↦
          let row =
            new_file engine fresh node.0 node.1 path primary_tag uid gid umask now alias_file db in
          rw
            (insert_file_new engine fresh node.0 node.1 path primary_tag uid gid umask now
              alias_file db
              (neither_found engine fresh node.0 node.1 path primary_tag uid gid umask now
                alias_file db.files e k))
            (carries-kept db (record db { files = db.files ++ row ∷ [] }) c
              (new_file-IsConsistent engine fresh node.0 node.1 path primary_tag uid gid umask now
                alias_file db c e k)
              (λ n i h.
                let (f, ef, qf) = find_of_file_id_at db c n i h in
                file_id_at_of_find (record db { files = db.files ++ row ∷ [] }) n.0 n.1 f
                  (find-append (at_inode n.0 n.1) db.files (row ∷ []) f ef)
                ∙ ap some qf)
              (λ name t h. h) refl)
    ]
  ]

  -- `add_file` adds its tags to the file, and changes nothing else in the view.
  pub add_file-carries :
      (tags : List Text) (db : Db)
      → IsConsistent db
      → IsAddableTo db
      → Returns
          (λ _ db'. IsConsistent db' × (carries db' ≡ each (with_tag node) tags (carries db)))
          (add_file engine node.0 node.1 path primary_tag tags uid gid umask now alias_file db)
  unfolding add_file update_root_mtime
  add_file-carries tags db c a =
      Returns-bind _ _ (insert_file engine node.0 node.1 path primary_tag now alias_file) _ db
        (both _ _ _
          (insert_file_lem engine fresh node.0 node.1 path primary_tag uid gid umask now alias_file
            db c a)
          (insert_file-carries db c a))
        (λ _ db1 ((c1, (i, h)), same).
          Returns-bind _ _
            (link_tags engine node.0 node.1 path primary_tag uid gid umask now alias_file tags) _
            db1 (link_tags-carries tags db1 i c1 h)
            (λ tagged db2 (c2, view). (
              root-IsConsistent db2 now c2,
              carries-root db2 now ∙ view ∙ ap (each (with_tag node) tags) same,
            )))
