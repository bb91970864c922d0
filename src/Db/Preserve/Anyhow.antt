-- ===== src/Db/Preserve/Anyhow.antt =====
-- Whatever the arguments, an operation that succeeds leaves consistent tables.
use mathlib.Core.Path.{subst}
use supertag.Base.{
  ℕ, ◌≡◌, refl, sym, ap, ◌∙◌, Bool, true, false, ◌&&◌, ◌||◌, List, [], ◌∷◌, Option, none, arith,
  Text, find, update, text_eq, text_eq_iff, ◌==◌, Option-cases, Bool-cases, inl, inr, map-update,
}
use supertag.Base.Unique.{is_some}
use supertag.Db.Consistent.{
  IsConsistent, root-IsConsistent, update_tags-IsConsistent, file_id_of, node_of, path_of,
}
use supertag.Db.Ensure.{ensure_tag}
use supertag.Db.Link.{
  joins, link_file_to_tag, insert_link, insert_file, link_tags, add_file, count_up,
}
use supertag.Db.Lookup.{named, at_inode, file_id_at, update_tag_mtime, update_root_mtime}
use supertag.Db.Monad.{Outcome, done, failed, panicked, Returns, Ensures, Ensures-bind}
use supertag.Db.Preserve.AddFile.{IsAddable, add_file_lem, insert_file_taken}
use supertag.Db.Preserve.Ensure.{ensure_tag-Grows}
use supertag.Db.Preserve.RemoveFile.{remove_devicefile_lem}
use supertag.Db.Preserve.RemoveTag.{remove_tag_lem}
use supertag.Db.Preserve.Rename.{IsFree, renamed-IsConsistent, rename_tag_done}
use supertag.Db.Remove.{remove_devicefile, remove_tag}
use supertag.Db.Rename.{rename_tag, rename_file}
use supertag.Db.Store.{Db, FileRow, TagRow, FileTagRow, Engine, IsFresh}
use supertag.Errors.{constraint_violation}
use supertag.Perms.Permissions.{Permissions}
use supertag.Perms.Umask
use supertag.Perms.Umask.{UMask}
use supertag.Tags.Types.{DeviceFile}

pub Ensures-of_Returns :
    {E A : Type 0} (P Q : A → Db → Type 0) (r : Outcome E A)
    → ((a : A) (db : Db) → P a db → Q a db)
    → Returns P r
    → Ensures Q r
Ensures-of_Returns P Q (done a db) f p = f a db p
Ensures-of_Returns P Q (failed e) f p = tt
Ensures-of_Returns P Q panicked f p = tt

abbrev pub Keeps : {E A : Type 0} → Outcome E A → Type 0
Keeps r = Ensures (λ _ db'. IsConsistent db') r

no_file :
    (device inode i : ℕ) (files : List FileRow)
    → find (at_inode device inode) files ≡ none
    → find (λ f. f.id == i && at_inode device inode f) files ≡ none
unfolding find
no_file device inode i [] h = refl
no_file device inode i (f ∷ files) h = ground (arith, no_file device inode i files)

-- Without a row for the inode, nothing is joined and the new link is refused.
joins-none :
    (db : Db) (device inode : ℕ) (tag : Text) (rows : List FileTagRow)
    → find (at_inode device inode) db.files ≡ none
    → find (joins db device inode tag) rows ≡ none
unfolding find joins
joins-none db device inode tag [] h = refl
joins-none db device inode tag (r ∷ rows) h =
    rw (no_file device inode r.file_id db.files h) (joins-none db device inode tag rows h)

module _ (engine : Engine) (fresh : IsFresh engine) where
  link_missing :
      (device inode : ℕ) (tag : Text) (uid gid : ℕ) (permissions : Permissions) (now : ℕ) (db : Db)
      → find (at_inode device inode) db.files ≡ none
      → link_file_to_tag engine device inode tag uid gid permissions now db
        ≡ failed constraint_violation
  unfolding link_file_to_tag count_up insert_link file_id_at
  link_missing device inode tag uid gid permissions now db h =
      ground (arith, joins-none db device inode tag db.file_tag h)

  module _ (device inode : ℕ) (path primary_tag : Text) (uid gid : ℕ) (umask : UMask) (now : ℕ)
      (alias_file : Option Text) where
    link_tags_missing :
        (tags : List Text) (db : Db)
        → IsConsistent db
        → find (at_inode device inode) db.files ≡ none
        → Keeps
            (link_tags engine device inode path primary_tag uid gid umask now alias_file tags db)
    unfolding link_tags
    link_tags_missing [] db c h = c
    link_tags_missing (tag ∷ tags) db c h =
        Ensures-bind (λ _ d. d.files ≡ db.files) _
          (ensure_tag engine tag uid gid (Umask.dir_perms umask) now) _ db
          (Ensures-of_Returns _ _ (ensure_tag engine tag uid gid (Umask.dir_perms umask) now db)
            (λ r d (_, _, _, _, g). g.same_files)
            (ensure_tag-Grows engine fresh tag uid gid (Umask.dir_perms umask) now db c))
          (λ r d f.
            Ensures-bind (λ _ _. ⊥) _
              (link_file_to_tag engine device inode r.0 uid gid (Umask.file_perms umask) now) _ d
              (rw
                (link_missing device inode r.0 uid gid (Umask.file_perms umask) now d
                  (ap (find (at_inode device inode)) f ∙ h))
                tt)
              (λ _ _ b. absurd b))

    path_found :
        (rows : List FileRow)
        → is_some (find (λ f. text_eq f.path path) rows) ≡ true
        → is_some (find (λ f. at_inode device inode f || text_eq f.path path) rows) ≡ true
    unfolding find
    path_found [] h = absurd (cc)
    path_found (r ∷ rows) h = ground (arith, path_found rows)

    pub add_file-Keeps :
        (tags : List Text) (db : Db)
        → IsConsistent db
        → Keeps (add_file engine device inode path primary_tag tags uid gid umask now alias_file db)
    unfolding add_file update_root_mtime
    add_file-Keeps tags db c = elim (Option-cases (find (at_inode device inode) db.files)) [
      | inr (f, e) ↦ addable (inl (ap is_some e))
      | inl e ↦ elim (Option-cases (find (λ f. text_eq f.path path) db.files)) [
        | inl k ↦ addable (inr k)
        | inr (f, k) ↦
            Ensures-bind (λ _ d. d ≡ db) _
              (insert_file engine device inode path primary_tag now alias_file) _ db
              (rw
                (insert_file_taken engine fresh device inode path primary_tag uid gid umask now
                  alias_file db (path_found db.files (ap is_some k)))
                refl)
              (λ _ d same.
                Ensures-bind _ _
                  (link_tags engine device inode path primary_tag uid gid umask now alias_file tags)
                  _ d
                  (link_tags_missing tags d (subst IsConsistent (sym same) c)
                    (ap (λ x. find (at_inode device inode) x.files) same ∙ e))
                  (λ _ d' c'. root-IsConsistent d' now c'))
      ]
    ]
      where
        addable :
            IsAddable engine fresh device inode path primary_tag uid gid umask now alias_file db
            → Keeps
                (add_file engine device inode path primary_tag tags uid gid umask now alias_file db)
        addable a =
            Ensures-of_Returns _ _
              (add_file engine device inode path primary_tag tags uid gid umask now alias_file db)
              (λ r d (k, _, _). k)
              (add_file_lem engine fresh device inode path primary_tag uid gid umask now alias_file
                tags db c a)

  pub remove_devicefile-Keeps :
      (df : DeviceFile) (tags : List Text) (now : ℕ) (db : Db)
      → IsConsistent db
      → Keeps (remove_devicefile df tags now db)
  remove_devicefile-Keeps df tags now db c =
      elim (Option-cases (file_id_at db df.device df.inode)) [
        | inl e ↦ unfold remove_devicefile in rw e tt
        | inr (i, e) ↦
            Ensures-of_Returns _ _ (remove_devicefile df tags now db) (λ r d (k, _, _, _). k)
              (remove_devicefile_lem df tags now db i c e)
      ]

  pub remove_tag-Keeps :
      (tag : Text) (now : ℕ) (immediate : Bool) (db : Db)
      → IsConsistent db
      → Keeps (remove_tag tag now immediate db)
  remove_tag-Keeps tag now true db c =
      Ensures-of_Returns _ _ (remove_tag tag now true db) (λ r d (k, _, _, _). k)
        (remove_tag_lem tag now db c)
  remove_tag-Keeps tag now false db c = unfold remove_tag in tt

  pub rename_file-Keeps :
      (df : DeviceFile) (name : Text) (now : ℕ) (db : Db)
      → IsConsistent db
      → Keeps (rename_file df name now db)
  unfolding rename_file update_root_mtime
  rename_file-Keeps df name now db c =
      let p = at_inode df.device df.inode in
      let f : FileRow → FileRow = λ f. record f { primary_tag = name; mtime = now } in
      let ids = map-update file_id_of p f db.files (λ r. refl) in
      record {
        tag_ids = c.tag_ids;
        tag_names = c.tag_names;
        file_ids = rw ids c.file_ids;
        file_nodes = rw (map-update node_of p f db.files (λ r. refl)) c.file_nodes;
        file_paths = rw (map-update path_of p f db.files (λ r. refl)) c.file_paths;
        link_keys = c.link_keys;
        link_tags = c.link_tags;
        link_files = rw ids c.link_files;
        tallies = c.tallies;
      }

  update-none :
      (old : Text) (f : TagRow → TagRow) (rows : List TagRow)
      → find (named old) rows ≡ none
      → update (named old) f rows ≡ rows
  unfolding find update
  update-none old f [] h = refl
  update-none old f (r ∷ rows) h = ground (arith, update-none old f rows)

  rename_tag_absent :
      (old new : Text) (now : ℕ) (db : Db)
      → find (named old) db.tags ≡ none
      → rename_tag old new now db
        ≡ done tt (record db {
          tags = update (named new) (λ t. record t { mtime = now }) db.tags;
          root_mtime = now;
        })
  unfolding rename_tag update_tag_mtime update_root_mtime
  rename_tag_absent old new now db a =
      ground (arith, update-none old (λ t. record t { tag_name = new }) db.tags a)

  -- The free name, the name that is its own, the tag that does not exist, and the clash.
  pub rename_tag-Keeps :
      (old new : Text) (now : ℕ) (db : Db) → IsConsistent db → Keeps (rename_tag old new now db)
  rename_tag-Keeps old new now db c = elim (Option-cases (find (named new) db.tags)) [
    | inl e ↦ free (inl e)
    | inr (u, e) ↦ elim (Bool-cases (text_eq old new)) [
      | inl q ↦ free (inr ((text_eq_iff old new).0 q))
      | inr q ↦ elim (Option-cases (find (named old) db.tags)) [
        | inl a ↦
            let met : TagRow → TagRow = λ t. record t { mtime = now } in
            rw (rename_tag_absent old new now db a) (
              root-IsConsistent (record db { tags = update (named new) met db.tags }) now
                (update_tags-IsConsistent db (named new) met (λ t. refl) (λ t. refl) (λ t. refl) c))
        | inr (t, a) ↦ unfold rename_tag in rw (a, e, q) tt
      ]
    ]
  ]
    where
      free : IsFree db old new → Keeps (rename_tag old new now db)
      free f =
          let met : TagRow → TagRow = λ t. record t { mtime = now } in
          let db1 : Db = record db {
            tags = update (named old) (λ t. record t { tag_name = new }) db.tags;
          } in
          rw (rename_tag_done old new now db f) (
            root-IsConsistent (record db1 { tags = update (named new) met db1.tags }) now
              (update_tags-IsConsistent db1 (named new) met (λ t. refl) (λ t. refl) (λ t. refl)
                (renamed-IsConsistent old new db c f)))
