-- ===== src/Fsops/Moves.antt =====
-- `move_or_merge` keeps the tables consistent, except where it merges a tag into another.
use mathlib.Core.Path.{subst}
use supertag.Base.{
  ℕ, ◌≡◌, refl, sym, ap, ◌∙◌, Bool, true, false, List, [], ◌∷◌, ◌++◌, Option, none, some, Text,
  text_eq, Bool-cases, Option-cases, inl, inr,
}
use supertag.Db.Consistent.{IsConsistent}
use supertag.Db.Ensure.{ensure_tag_group, add_tag_to_group}
use supertag.Db.Lookup.{tag_exists, tag_group_exists}
use supertag.Db.Monad.{Ensures, Ensures-bind, lift, map_err, gets, or_fail, fail, ◌>>=◌, ◌>>◌}
use supertag.Db.Pins.{pin_tags}
use supertag.Db.Preserve.Anyhow.{Keeps, rename_tag-Keeps, rename_file-Keeps, remove_tag-Keeps}
use supertag.Db.Preserve.Framed.{
  map_err-Keeps, ensure_tag_group-Keeps, add_tag_to_group-Keeps, rename_tag_group-Keeps,
}
use supertag.Db.Preserve.Pinned.{pin_tags-Keeps}
use supertag.Db.Query.{intersects_of, excepts_of}
use supertag.Db.Remove.{is_nil, remove_tag}
use supertag.Db.Rename.{rename_tag, rename_tag_group, rename_file}
use supertag.Db.Select.Files.{files_tagged_with, contains_file}
use supertag.Db.Select.Found.{only_negated, files_tagged_with-done, files_tagged_with-failed}
use supertag.Db.Store.{Db, Engine, IsFresh}
use supertag.Errors.{invalid_path}
use supertag.Fsops.{Notifier, from_result}
use supertag.Fsops.Keeps.{KeepsAll, bind-Keeps, from_result-Keeps, lift-Keeps}
use supertag.Fsops.Move.{
  map_rename, same_tag, move_to_tag, become_group, pin_moved, move_to_group, without_same, move_to,
  move_tag, rename_group_to, move_group, move_link, move_from, move_or_merge,
}
use supertag.Names.{creatable_tag_group, get_filename, primary_tag}
use supertag.Perms.Umask
use supertag.Perms.Umask.{UMask}
use supertag.Rows.{TaggedFile}
use supertag.Symbols.{Symbols}
use supertag.Tags.Collection
use supertag.Tags.Collection.{TagCollection}
use supertag.Tags.Collect.{collect_pinnable}
use supertag.Tags.Types
use supertag.Tags.Types.{TagType, regular, negation, group, file_dir, device_file_symlink, symlink}

files_tagged_with-Keeps : (tags : List TagType) → KeepsAll (files_tagged_with tags)
files_tagged_with-Keeps tags db c =
    elim (Bool-cases (only_negated (intersects_of tags) (excepts_of tags))) [
      | inl e ↦ rw (files_tagged_with-failed tags db e) tt
      | inr e ↦ rw (files_tagged_with-done tags db e) c
    ]

or_fail-Keeps : {E : Type 0} {A : Type 0} (o : Option A) (e : E) → KeepsAll (or_fail o e)
or_fail-Keeps none e = λ db c. tt
or_fail-Keeps (some a) e = λ db c. c

contains_file-Keeps :
    (tags : List TagType) (pred : TaggedFile → Bool) → KeepsAll (contains_file tags pred)
unfolding contains_file
contains_file-Keeps tags pred =
    bind-Keeps (files_tagged_with tags) _ (files_tagged_with-Keeps tags) (λ _ db c. c)

-- The destination that is looked at: without the source's name at its end.
abbrev pub target : TagCollection → TagCollection → TagCollection
target src_tags dst_tags = elim (Collection.last src_tags) [
  | none ↦ dst_tags
  | some s ↦ elim (Collection.last dst_tags) [
    | none ↦ dst_tags
    | some d ↦ elim (same_tag s d) [ true ↦ (Collection.pop dst_tags).0 | false ↦ dst_tags ]
  ]
]

-- No tag is merged: the destination does not end in a tag that exists.
abbrev pub NoMerge : Symbols → Db → Text → Text → Type 0
NoMerge syms db src dst =
    (name : Text)
    → Collection.last (target (Collection.new syms src) (Collection.new syms dst))
      ≡ some (regular name)
    → tag_exists db name ≡ false

module _ (engine : Engine) (fresh : IsFresh engine) (syms : Symbols) (notifier : Notifier)
    (uid gid : ℕ) (umask : UMask) (now : ℕ) where
  become_group-Keeps :
      (src_tag new_name : Text) (files : List TaggedFile)
      → KeepsAll (become_group engine syms notifier uid gid umask now src_tag new_name files)
  unfolding become_group
  become_group-Keeps src_tag new_name files db c = elim (Bool-cases (is_nil files)) [
    | inl e ↦
        rw (e, become_group)
          (bind-Keeps (lift (remove_tag src_tag now true)) _
            (lift-Keeps (remove_tag src_tag now true)
              (remove_tag-Keeps engine fresh src_tag now true))
            (λ _.
              lift-Keeps (ensure_tag_group engine new_name uid gid (Umask.dir_perms umask) now)
                (ensure_tag_group-Keeps engine new_name uid gid (Umask.dir_perms umask) now))
            db c)
    | inr e ↦ rw (e, become_group, Ensures) tt
  ]

  pin_moved-Keeps :
      (src_tag : Text) (dst_tags : TagCollection) (files : List TaggedFile)
      → KeepsAll (pin_moved engine syms notifier uid gid umask now src_tag dst_tags files)
  unfolding pin_moved
  pin_moved-Keeps src_tag dst_tags files db c =
      let pinnable = collect_pinnable dst_tags.tags in
      elim (Bool-cases (is_nil files)) [
        | inr e ↦ rw (e, pin_moved, Ensures) c
        | inl e ↦ elim (Bool-cases (is_nil pinnable)) [
          | inl f ↦ rw (e, f, pin_moved, Ensures) c
          | inr f ↦
              rw (e, f, pin_moved)
                (lift-Keeps
                  (pin_tags engine uid gid (Umask.dir_perms umask) now
                    (pinnable ++ regular src_tag ∷ []))
                  (pin_tags-Keeps engine fresh uid gid (Umask.dir_perms umask) now
                    (pinnable ++ regular src_tag ∷ []))
                  db c)
        ]
      ]

  group_exists-Keeps :
      (src_tag new_name : Text) (dst_tags : TagCollection) (files : List TaggedFile)
      → KeepsAll (
          gets (λ db. tag_group_exists db new_name) >>= λ exists. elim exists [
            | false ↦ become_group engine syms notifier uid gid umask now src_tag new_name files
            | true ↦ do
              lift (add_tag_to_group src_tag new_name uid gid (Umask.dir_perms umask) now)
              pin_moved engine syms notifier uid gid umask now src_tag dst_tags files
          ])
  group_exists-Keeps src_tag new_name dst_tags files db c =
      let add = add_tag_to_group src_tag new_name uid gid (Umask.dir_perms umask) now in
      elim (Bool-cases (tag_group_exists db new_name)) [
        | inl e ↦
            rw (e, Ensures)
              (bind-Keeps (lift add) _
                (lift-Keeps add
                  (add_tag_to_group-Keeps src_tag new_name uid gid (Umask.dir_perms umask) now))
                (λ _. pin_moved-Keeps src_tag dst_tags files) db c)
        | inr e ↦ rw (e, Ensures) (become_group-Keeps src_tag new_name files db c)
      ]

  move_to_group-Keeps :
      (src_tag new_name : Text) (dst_tags : TagCollection)
      → KeepsAll (move_to_group engine syms notifier uid gid umask now src_tag new_name dst_tags)
  unfolding move_to_group
  move_to_group-Keeps src_tag new_name dst_tags db c =
      elim (Bool-cases (creatable_tag_group syms new_name)) [
        | inr e ↦ rw (e, move_to_group, Ensures) tt
        | inl e ↦
            rw (e, move_to_group)
              (bind-Keeps (lift (files_tagged_with (regular src_tag ∷ []))) _
                (lift-Keeps (files_tagged_with (regular src_tag ∷ []))
                  (files_tagged_with-Keeps (regular src_tag ∷ [])))
                (group_exists-Keeps src_tag new_name dst_tags) db c)
      ]

  -- Where the destination ends in a tag that does not exist, it is a rename.
  module _ (src_tag : Text) (src_tags : List TagType) (dst_tags : TagCollection) (db : Db)
      (c : IsConsistent db) where
    move_to-Keeps :
        (t : TagType)
        → ((name : Text) → t ≡ regular name → tag_exists db name ≡ false)
        → Keeps (move_to engine syms notifier uid gid umask now src_tag src_tags dst_tags t db)
    unfolding move_to move_to_tag
    move_to-Keeps (regular name) h =
        rw (h name refl, Ensures)
          (map_err-Keeps _ (rename_tag src_tag name now) db
            (rename_tag-Keeps engine fresh src_tag name now db c))
    move_to-Keeps (group name) h = move_to_group-Keeps src_tag name dst_tags db c
    move_to-Keeps (negation _) h = tt
    move_to-Keeps file_dir h = tt
    move_to-Keeps (device_file_symlink _) h = tt
    move_to-Keeps (symlink _) h = tt

  rename_group_to-Keeps :
      (dst tag_group : Text) (t : TagType)
      → KeepsAll (rename_group_to engine syms notifier uid gid umask now dst tag_group t)
  unfolding rename_group_to
  rename_group_to-Keeps dst tag_group (group name) =
      lift-Keeps (rename_tag_group tag_group name now) (rename_tag_group-Keeps tag_group name now)
  rename_group_to-Keeps dst tag_group (regular name) =
      lift-Keeps (rename_tag_group tag_group name now) (rename_tag_group-Keeps tag_group name now)
  rename_group_to-Keeps dst tag_group (negation _) = λ db c. tt
  rename_group_to-Keeps dst tag_group file_dir = λ db c. tt
  rename_group_to-Keeps dst tag_group (device_file_symlink _) = λ db c. tt
  rename_group_to-Keeps dst tag_group (symlink _) = λ db c. tt

  renamed_file :
      (dst new_name : Text) (df : Types.DeviceFile)
      → KeepsAll (map_err (map_rename dst) (rename_file df new_name now))
  renamed_file dst new_name df db c =
      map_err-Keeps (map_rename dst) (rename_file df new_name now) db
        (rename_file-Keeps engine fresh df new_name now db c)

  moved_found :
      (src dst new_name : Text) (found : Option TaggedFile)
      → KeepsAll {A = Unit {0}} (elim found [
        | none ↦ fail (invalid_path src)
        | some tf ↦ map_err (map_rename dst) (rename_file (Types.from_tagged_file tf) new_name now)
      ])
  moved_found src dst new_name none = λ db c. tt
  moved_found src dst new_name (some tf) = renamed_file dst new_name (Types.from_tagged_file tf)

  move_link-Keeps :
      (src dst filename : Text) (src_tags : TagCollection)
      → KeepsAll (move_link engine syms notifier uid gid umask now src dst filename src_tags)
  unfolding move_link
  move_link-Keeps src dst filename src_tags =
      let named = λ (tf : TaggedFile). text_eq tf.primary_tag filename in
      bind-Keeps (from_result (get_filename dst)) _ (from_result-Keeps (get_filename dst))
        (λ new_name.
          bind-Keeps (lift (contains_file src_tags.tags named)) _
            (lift-Keeps (contains_file src_tags.tags named)
              (contains_file-Keeps src_tags.tags named))
            (moved_found src dst new_name))

  without_same-target :
      (src_tags dst_tags : TagCollection) (db : Db)
      → Ensures
          (λ dst d. (d ≡ db) × (dst ≡ target src_tags dst_tags))
          (without_same engine syms notifier uid gid umask now src_tags dst_tags db)
  unfolding without_same
  without_same-target src_tags dst_tags db = elim (Option-cases (Collection.last src_tags)) [
    | inl e ↦ rw (e, Ensures) tt
    | inr (s, e) ↦ elim (Option-cases (Collection.last dst_tags)) [
      | inl f ↦ rw (e, f, Ensures) tt
      | inr (d, f) ↦ elim (Bool-cases (same_tag s d)) [
        | inl g ↦ rw (e, f, g, Ensures) (refl, rw (e, f, g, target) refl)
        | inr g ↦ rw (e, f, g, Ensures) (refl, rw (e, f, g, target) refl)
      ]
    ]
  ]

  typed :
      (src_tag : Text) (src_tags : List TagType) (dst_tags : TagCollection) (db : Db)
      → IsConsistent db
      → ((name : Text)
          → Collection.last dst_tags ≡ some (regular name)
          → tag_exists db name ≡ false)
      → Keeps (
          (from_result (Collection.primary_type dst_tags)
              >>= move_to engine syms notifier uid gid umask now src_tag src_tags dst_tags)
            db)
  unfolding Collection.primary_type
  typed src_tag src_tags dst_tags db c h = elim (Option-cases (Collection.last dst_tags)) [
    | inl e ↦ rw (e, Ensures) tt
    | inr (t, e) ↦
        rw (e, Ensures)
          (move_to-Keeps src_tag src_tags dst_tags db c t (λ name q. h name (e ∙ ap some q)))
  ]

  move_tag-Keeps :
      (src_tag : Text) (src_tags dst_tags : TagCollection) (db : Db)
      → IsConsistent db
      → ((name : Text)
          → Collection.last (target src_tags dst_tags) ≡ some (regular name)
          → tag_exists db name ≡ false)
      → Keeps (move_tag engine syms notifier uid gid umask now src_tag src_tags dst_tags db)
  unfolding move_tag
  move_tag-Keeps src_tag src_tags dst_tags db c h = elim (Bool-cases (tag_exists db src_tag)) [
    | inr e ↦ rw (e, Ensures) tt
    | inl e ↦
        rw (e, Ensures)
          (Ensures-bind _ _ (without_same engine syms notifier uid gid umask now src_tags dst_tags)
            _ db (without_same-target src_tags dst_tags db)
            (λ dst d (same, aimed).
              typed src_tag src_tags.tags dst d (subst IsConsistent (sym same) c) (λ name q.
                ap (λ x. tag_exists x name) same ∙ h name (sym (ap Collection.last aimed) ∙ q))))
  ]

  named_file :
      (dst : Text) (df : Types.DeviceFile) (maybe_name : Option Text)
      → KeepsAll (
          or_fail maybe_name (invalid_path dst) >>= λ new_name.
          map_err (map_rename dst) (rename_file df new_name now))
  named_file dst df maybe_name =
      bind-Keeps (or_fail maybe_name (invalid_path dst)) _
        (or_fail-Keeps maybe_name (invalid_path dst)) (λ new_name. renamed_file dst new_name df)

  move_from-Keeps :
      (src dst : Text) (src_tags dst_tags : TagCollection) (t : TagType) (db : Db)
      → IsConsistent db
      → ((name : Text)
          → Collection.last (target src_tags dst_tags) ≡ some (regular name)
          → tag_exists db name ≡ false)
      → Keeps (move_from engine syms notifier uid gid umask now src dst src_tags dst_tags t db)
  unfolding move_from move_group
  move_from-Keeps src dst src_tags dst_tags (device_file_symlink df) db c h =
      bind-Keeps (from_result (primary_tag dst syms.device_char)) _
        (from_result-Keeps (primary_tag dst syms.device_char)) (named_file dst df) db c
  move_from-Keeps src dst src_tags dst_tags (symlink filename) db c h =
      move_link-Keeps src dst filename src_tags db c
  move_from-Keeps src dst src_tags dst_tags (regular src_tag) db c h =
      move_tag-Keeps src_tag src_tags dst_tags db c h
  move_from-Keeps src dst src_tags dst_tags (group tag_group) db c h =
      bind-Keeps (from_result (Collection.primary_type dst_tags)) _
        (from_result-Keeps (Collection.primary_type dst_tags)) (rename_group_to-Keeps dst tag_group)
        db c
  move_from-Keeps src dst src_tags dst_tags (negation _) db c h = tt
  move_from-Keeps src dst src_tags dst_tags file_dir db c h = tt

  pub move_or_merge-Keeps :
      (src dst : Text) (db : Db)
      → IsConsistent db
      → NoMerge syms db src dst
      → Keeps (move_or_merge engine syms notifier uid gid umask now src dst db)
  unfolding move_or_merge Collection.primary_type
  move_or_merge-Keeps src dst db c h =
      elim (Option-cases (Collection.last (Collection.new syms src))) [
        | inl e ↦ rw (e, Ensures) tt
        | inr (t, e) ↦
            rw (e, Ensures)
              (move_from-Keeps src dst (Collection.new syms src) (Collection.new syms dst) t db c h)
      ]
