-- ===== src/Db/View/Refines.antt =====
-- Runs of operations and the listings after them, in the view alone.
use supertag.Base.{
  ℕ, ◌≡◌, true, refl, ap, ◌∙◌, List, [], ◌∷◌, Option, some, Text, nat_eq, pair_eq, chars_eq,
}
use supertag.Db.Consistent.{IsConsistent}
use supertag.Db.Link.{add_file}
use supertag.Db.Lookup.{file_id_at}
use supertag.Db.Monad.{Sql, pure, Returns, Ensures, Returns-bind, Returns-map, ◌>>◌}
use supertag.Db.Remove.{remove_devicefile, purge_devicefile, remove_tag}
use supertag.Db.Rename.{rename_tag}
use supertag.Db.Preserve.Rename.{IsFree}
use supertag.Db.Store.{Db, Engine, IsFresh}
use supertag.Db.View.{
  View, carries, with_tag, without_tag, without_file, without_name, with_name, each,
}
use supertag.Db.View.AddFile.{IsAddableTo, add_file-carries, both}
use supertag.Db.View.Delete.{remove_devicefile-carries}
use supertag.Db.View.Tags.{remove_tag-carries, rename_tag-carries}
use supertag.Db.View.Purge.{purge_devicefile-carries}
use supertag.Perms.Umask.{UMask}
use supertag.Tags.Types.{DeviceFile}

-- What a caller of `add_file` gives
pub record Addition : Type 0 where
  pub node : ℕ × ℕ
  pub path : Text
  pub primary_tag : Text
  pub tags : List Text
  pub uid : ℕ
  pub gid : ℕ
  pub umask : UMask
  pub now : ℕ
  pub alias_file : Option Text

pub data Op : Type 0 where
  add : Addition → Op
  remove : DeviceFile → List Text → ℕ → Op
  purge : DeviceFile → ℕ → Op
  delete_tag : Text → ℕ → Op
  rename_to : Text → Text → ℕ → Op

-- The meaning of a run in the view
abbrev pub meaning : Op → View → View
meaning (add a) = each (with_tag a.node) a.tags
meaning (remove df tags now) = each (without_tag (df.device, df.inode)) tags
meaning (purge df now) = without_file (df.device, df.inode)
meaning (delete_tag tag now) = without_name tag
meaning (rename_to old new now) = with_name old new

module _ (engine : Engine) (fresh : IsFresh engine) where
  unfoldable pub perform : Op → Sql (Unit {0})
  perform (add a) = do
    add_file engine a.node.0 a.node.1 a.path a.primary_tag a.tags a.uid a.gid a.umask a.now
        a.alias_file
    pure tt
  perform (remove df tags now) = do remove_devicefile df tags now; pure tt
  perform (purge df now) = purge_devicefile df now
  perform (delete_tag tag now) = remove_tag tag now true
  perform (rename_to old new now) = rename_tag old new now

  unfoldable pub perform_all : List Op → Sql (Unit {0})
  perform_all [] = pure tt
  perform_all (op ∷ ops) = do perform op; perform_all ops

  -- A file is added where no other has its path, tags are removed from a file that is known, and a
  -- tag gets a name that is free or its own.
  abbrev pub IsAllowed : Op → Db → Type 0
  IsAllowed (add a) db =
      IsAddableTo engine fresh a.node a.path a.primary_tag a.uid a.gid a.umask a.now a.alias_file db
  IsAllowed (remove df tags now) db =
      (file_id : ℕ) × (file_id_at db df.device df.inode ≡ some file_id)
  IsAllowed (purge df now) db = Unit {0}
  IsAllowed (delete_tag tag now) db = Unit {0}
  IsAllowed (rename_to old new now) db = IsFree db old new

  abbrev pub AreAllowed : List Op → Db → Type 0
  AreAllowed [] db = Unit {0}
  AreAllowed (op ∷ ops) db = IsAllowed op db × Ensures (λ _ db'. AreAllowed ops db') (perform op db)

  perform-carries :
      (op : Op) (db : Db)
      → IsConsistent db
      → IsAllowed op db
      → Returns
          (λ _ db'. IsConsistent db' × (carries db' ≡ meaning op (carries db)))
          (perform op db)
  unfolding perform
  perform-carries (add a) db c h =
      Returns-bind _ _
        (add_file engine a.node.0 a.node.1 a.path a.primary_tag a.tags a.uid a.gid a.umask a.now
          a.alias_file)
        (λ _. pure tt) db
        (add_file-carries engine fresh a.node a.path a.primary_tag a.uid a.gid a.umask a.now
          a.alias_file a.tags db c h)
        (λ _ db' k. k)
  perform-carries (remove df tags now) db c (i, h) =
      Returns-bind _ _ (remove_devicefile df tags now) (λ _. pure tt) db
        (remove_devicefile-carries df tags now db i c h) (λ _ db' k. k)
  perform-carries (purge df now) db c h = purge_devicefile-carries df now db c
  perform-carries (delete_tag tag now) db c h = remove_tag-carries tag now db c
  perform-carries (rename_to old new now) db c h = rename_tag-carries old new now db c h

  -- Additions of files, removals of tags from them, purges of files, and deletions and renamings of
  -- tags refine the changes of a relation between files and names of tags: from consistent tables,
  -- every allowed run of them succeeds, and the tables that it leaves are consistent and show exactly
  -- the relation that the same changes make of the one before.
  pub perform_all-carries :
      (ops : List Op) (db : Db)
      → IsConsistent db
      → AreAllowed ops db
      → Returns
          (λ _ db'. IsConsistent db' × (carries db' ≡ each meaning ops (carries db)))
          (perform_all ops db)
  unfolding perform_all
  perform_all-carries [] db c h = (c, refl)
  perform_all-carries (op ∷ ops) db c (h, hs) =
      Returns-bind _ _ (perform op) (λ _. perform_all ops) db
        (both _ _ _ (perform-carries op db c h) hs)
        (λ _ db1 ((c1, view), rest).
          Returns-map _ _ (perform_all ops db1)
            (λ _ db2 (c2, more). (c2, more ∙ ap (each meaning ops) view))
            (perform_all-carries ops db1 c1 rest))
