-- ===== src/Fsops/Keeps.antt =====
-- `mkdir`, `rmdir`, `rm` and `ln` keep the tables consistent.
use supertag.Base.{
  ℕ, true, List, [], ◌∷◌, Option, none, some, Text, ok, err, length, last?, ◌==◌, Bool-cases, inl,
  inr,
}
use supertag.Db.Consistent.{IsConsistent}
use supertag.Db.Ensure.{ensure_tag, ensure_tag_group}
use supertag.Db.Intersect.{
  remove_links, remove_taggroup_from_itersection, remove_tag_from_intersection,
}
use supertag.Db.Link.{add_file}
use supertag.Db.Monad.{Tx, lift, Sql, Ensures, Ensures-bind, unwrap, ◌>>=◌}
use supertag.Db.Pins.{pin_tags}
use supertag.Db.Preserve.Anyhow.{Keeps, add_file-Keeps, remove_devicefile-Keeps, remove_tag-Keeps}
use supertag.Db.Preserve.Framed.{
  map_err-Keeps, ensure_tag_group-Keeps, remove_taggroup-Keeps, remove_links-Keeps,
  remove_tag_from_intersection-Keeps, remove_taggroup_from_itersection-Keeps,
}
use supertag.Db.Preserve.Pinned.{ensure_tag-Keeps, pin_tags-Keeps}
use supertag.Db.Remove.{is_nil, remove_devicefile, remove_tag, remove_taggroup}
use supertag.Db.Store.{Db, Engine, IsFresh}
use supertag.Errors.{database_error, STagResult}
use supertag.Fsops.{
  Notifier, Host, from_result, make_top, same_collection, mkdir, remove_group_at, remove_tag_at,
  rmdir, rm, ln, remove_dir, remove_file,
}
use supertag.Perms.Permissions.{Permissions}
use supertag.Perms.Umask.{UMask}
use supertag.Symbols.{Symbols}
use supertag.Tags.Types.{TagType, regular, negation, group, file_dir, device_file_symlink, symlink}
use supertag.Tags.Collection
use supertag.Tags.Collect.{
  collect_regular_names, collect_regular, collect_pinnable, collect_tags_and_groups,
}

-- A chain of which each part keeps them.
abbrev pub KeepsAll : {E A : Type 0} → Tx E A → Type 0
KeepsAll m = (db : Db) → IsConsistent db → Keeps (m db)

pub bind-Keeps :
    {E A B : Type 0} (m : Tx E A) (f : A → Tx E B)
    → KeepsAll m
    → ((a : A) → KeepsAll (f a))
    → KeepsAll (m >>= f)
bind-Keeps m f h k db c = Ensures-bind _ _ m f db (h db c) (λ a d c'. k a d c')

pub from_result-Keeps : {A : Type 0} (r : STagResult A) → KeepsAll (from_result r)
from_result-Keeps (ok a) db c = c
from_result-Keeps (err e) db c = tt

pub unwrap-Keeps : (E : Type 0) {A : Type 0} (o : Option A) → KeepsAll (unwrap {E = E} o)
unwrap-Keeps E none db c = tt
unwrap-Keeps E (some a) db c = c

pub lift-Keeps : {A : Type 0} (m : Sql A) → KeepsAll m → KeepsAll (lift m)
lift-Keeps m h db c = map_err-Keeps database_error m db (h db c)

module _ (engine : Engine) (fresh : IsFresh engine) (syms : Symbols) where
  made_top :
      (t : TagType) (uid gid : ℕ) (permissions : Permissions) (now : ℕ)
      → KeepsAll (make_top engine uid gid permissions now t)
  unfolding make_top
  made_top (group tag) uid gid permissions now =
      lift-Keeps (ensure_tag_group engine tag uid gid permissions now)
        (ensure_tag_group-Keeps engine tag uid gid permissions now)
  made_top (regular tag) uid gid permissions now =
      bind-Keeps (lift (ensure_tag engine tag uid gid permissions now)) _
        (lift-Keeps (ensure_tag engine tag uid gid permissions now)
          (ensure_tag-Keeps engine fresh uid gid permissions now tag))
        (λ _ db c. c)
  made_top (negation _) uid gid permissions now = λ db c. c
  made_top file_dir uid gid permissions now = λ db c. c
  made_top (device_file_symlink _) uid gid permissions now = λ db c. c
  made_top (symlink _) uid gid permissions now = λ db c. c

  pub mkdir-Keeps :
      (dir : Text) (uid gid : ℕ) (permissions : Permissions) (now : ℕ)
      → KeepsAll (mkdir engine syms dir uid gid permissions now)
  unfolding mkdir
  mkdir-Keeps dir uid gid permissions now db c =
      let tags = (Collection.new syms dir).tags in
      elim (Bool-cases (length tags == 1)) [
        | inl e ↦
            rw (e, mkdir)
              (bind-Keeps (unwrap (Collection.first (Collection.new syms dir))) _ (unwrap-Keeps _ _)
                (λ t. made_top t uid gid permissions now) db c)
        | inr e ↦ elim (Bool-cases (is_nil (collect_pinnable tags))) [
          | inl f ↦ rw (e, f, mkdir, Ensures) c
          | inr f ↦
              rw (e, f, mkdir)
                (lift-Keeps (pin_tags engine uid gid permissions now (collect_pinnable tags))
                  (pin_tags-Keeps engine fresh uid gid permissions now (collect_pinnable tags)) db
                  c)
        ]
      ]

  remove_group_at-Keeps :
      (path name : Text) (tags parts : List TagType)
      → KeepsAll (remove_group_at path name tags parts)
  unfolding remove_group_at
  remove_group_at-Keeps path name tags [] = λ db c. tt
  remove_group_at-Keeps path name tags (part ∷ []) =
      lift-Keeps (remove_taggroup name) (remove_taggroup-Keeps name)
  remove_group_at-Keeps path name tags (part ∷ part' ∷ parts) =
      lift-Keeps (remove_taggroup_from_itersection name tags)
        (remove_taggroup_from_itersection-Keeps name tags)

  remove_tag_at-Keeps :
      (path tag : Text) (now : ℕ) (parts : List TagType)
      → KeepsAll (remove_tag_at path tag now parts)
  unfolding remove_tag_at
  remove_tag_at-Keeps path tag now [] = λ db c. tt
  remove_tag_at-Keeps path tag now (part ∷ []) =
      lift-Keeps (remove_tag tag now true) (remove_tag-Keeps engine fresh tag now true)
  remove_tag_at-Keeps path tag now (part ∷ part' ∷ parts) =
      let m = remove_tag_from_intersection tag (part ∷ part' ∷ parts) now in
      bind-Keeps (lift m) _
        (lift-Keeps m (remove_tag_from_intersection-Keeps tag (part ∷ part' ∷ parts) now))
        (λ _ db c. c)

  remove_dir-Keeps :
      (path : Text) (tags : List TagType) (now : ℕ) (t : TagType)
      → KeepsAll (remove_dir path tags now t)
  unfolding remove_dir
  remove_dir-Keeps path tags now (group name) =
      remove_group_at-Keeps path name tags (collect_tags_and_groups tags)
  remove_dir-Keeps path tags now (regular tag) =
      remove_tag_at-Keeps path tag now (collect_tags_and_groups tags)
  remove_dir-Keeps path tags now (negation _) = λ db c. tt
  remove_dir-Keeps path tags now file_dir = λ db c. tt
  remove_dir-Keeps path tags now (device_file_symlink _) = λ db c. tt
  remove_dir-Keeps path tags now (symlink _) = λ db c. tt

  pub rmdir-Keeps : (path : Text) (now : ℕ) → KeepsAll (rmdir syms path now)
  unfolding rmdir
  rmdir-Keeps path now =
      let tags = Collection.new syms path in
      bind-Keeps (from_result (Collection.primary_type tags)) _
        (from_result-Keeps (Collection.primary_type tags)) (remove_dir-Keeps path tags.tags now)

  remove_file-Keeps :
      (file : Text) (tags : List TagType) (now : ℕ) (t : TagType)
      → KeepsAll (remove_file file tags now t)
  unfolding remove_file
  remove_file-Keeps file tags now (device_file_symlink df) =
      bind-Keeps (unwrap (last? (collect_regular_names tags))) _ (unwrap-Keeps _ _) (λ last.
        lift-Keeps (remove_devicefile df (last ∷ []) now)
          (remove_devicefile-Keeps engine fresh df (last ∷ []) now))
  remove_file-Keeps file tags now (symlink filename) =
      bind-Keeps (unwrap (last? (collect_regular tags))) _ (unwrap-Keeps _ _) (λ last.
        lift-Keeps (remove_links filename (last ∷ []) now)
          (remove_links-Keeps filename (last ∷ []) now))
  remove_file-Keeps file tags now (regular _) = λ db c. tt
  remove_file-Keeps file tags now (negation _) = λ db c. tt
  remove_file-Keeps file tags now (group _) = λ db c. tt
  remove_file-Keeps file tags now file_dir = λ db c. tt

  pub rm-Keeps : (file : Text) (now : ℕ) → KeepsAll (rm syms file now)
  unfolding rm
  rm-Keeps file now =
      let tags = Collection.new syms file in
      bind-Keeps (from_result (Collection.primary_type tags)) _
        (from_result-Keeps (Collection.primary_type tags)) (remove_file-Keeps file tags.tags now)

  pub ln-Keeps :
      (host : Host) (notifier : Notifier) (src rel_dst primary_tag : Text) (uid gid : ℕ)
      (umask : UMask) (alias_file : Option Text) (now : ℕ)
      → KeepsAll (ln engine syms host notifier src rel_dst primary_tag uid gid umask alias_file now)
  unfolding ln
  ln-Keeps host notifier src rel_dst primary_tag uid gid umask alias_file now db c =
      let tags = collect_regular_names (Collection.new syms rel_dst).tags in
      elim (Bool-cases (same_collection (host.collection_from_path src) host.get_collection)) [
        | inl e ↦ rw (e, ln, Ensures) tt
        | inr e ↦ elim (Bool-cases (is_nil rel_dst)) [
          | inl f ↦
              rw (e, f, ln)
                (bind-Keeps (from_result notifier.dragged_to_root) _
                  (from_result-Keeps notifier.dragged_to_root) (λ _ d k. tt) db c)
          | inr f ↦
              rw (e, f, ln)
                (bind-Keeps (from_result (host.get_device_inode src)) _
                  (from_result-Keeps (host.get_device_inode src))
                  (λ node.
                    lift-Keeps
                      (add_file engine node.0 node.1 src primary_tag tags uid gid umask now
                        alias_file)
                      (add_file-Keeps engine fresh node.0 node.1 src primary_tag uid gid umask now
                        alias_file tags))
                  db c)
        ]
      ]
