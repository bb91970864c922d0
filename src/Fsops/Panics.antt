-- ===== src/Fsops/Panics.antt =====
-- Where `rm` panics.
use supertag.Base.{
  ℕ, ◌≡◌, refl, sym, ◌∙◌, text_eq, Bool, true, false, ◌&&◌, List, [], ◌∷◌, Option, none, some, Text,
  last?, Option-cases, Bool-cases, inl, inr, map, select,
}
use supertag.Db.Intersect.{remove_links}
use supertag.Db.Lookup.{get_tag_id, file_id_at, update_root_mtime}
use supertag.Db.Monad.{
  Outcome, done, failed, panicked, Tx, Sql, STag, lift, or_fail, pure, ◌>>=◌, ◌>>◌, unwrap,
}
use supertag.Db.Query.{intersects_of, excepts_of}
use supertag.Db.Preserve.Unlink.{unlink_tag-none, unlink_tag-nil, unlink_tag-some}
use supertag.Db.Remove.{is_nil, is_link, unlink_tag, unlink_tags, remove_devicefile}
use supertag.Db.Select.Files.{files_tagged_with, contains_file}
use supertag.Db.Select.Found.{only_negated, files_tagged_with-done, files_tagged_with-failed}
use supertag.Db.Store.{Db}
use supertag.Errors.{SqlError, database_error, query_returned_no_rows}
use supertag.Fsops.{remove_file, rm}
use supertag.Rows.{TaggedFile}
use supertag.Symbols.{Symbols}
use supertag.Tags.Collection
use supertag.Tags.Collect.{collect_regular, collect_regular_names}
use supertag.Tags.Types.{
  TagType, DeviceFile, regular, negation, group, file_dir, device_file_symlink, symlink,
}

abbrev pub is_panic : {E A : Type 0} → Outcome E A → Bool
is_panic (done a db) = false
is_panic (failed e) = false
is_panic panicked = true

abbrev Calm : {E A : Type 0} → Tx E A → Type 0
Calm m = (db : Db) → is_panic (m db) ≡ false

bind-Calm :
    {E A B : Type 0} (m : Tx E A) (f : A → Tx E B)
    → Calm m
    → ((a : A) → Calm (f a))
    → Calm (m >>= f)
bind-Calm {E} {A} {B} m f h k db = go (m db) (h db)
  where
    go :
        (r : Outcome E A)
        → is_panic r ≡ false
        → is_panic (elim r [ done a db' ↦ f a db' | failed e ↦ failed e | panicked ↦ panicked ])
          ≡ false
    go (done a db') p = k a db'
    go (failed e) p = refl
    go panicked p = absurd (cc)

lift-Calm : {A : Type 0} (m : Sql A) → Calm m → Calm (lift m)
lift-Calm {A} m h db = go (m db) (h db)
  where
    go :
        (r : Outcome _ A)
        → is_panic r ≡ false
        → is_panic (elim r [
          | done a db' ↦ done a db'
          | failed e ↦ failed (database_error e)
          | panicked ↦ panicked
        ])
          ≡ false
    go (done a db') p = refl
    go (failed e) p = refl
    go panicked p = absurd (cc)

or_fail-Calm : {E A : Type 0} (o : Option A) (e : E) → Calm (or_fail o e)
or_fail-Calm none e db = refl
or_fail-Calm (some a) e db = refl

unlink_tag-Calm : (file_id : ℕ) (tag : Text) → Calm (unlink_tag file_id tag)
unlink_tag-Calm file_id tag db = elim (Option-cases (get_tag_id db tag)) [
  | inl e ↦ rw (unlink_tag-none file_id tag db e) refl
  | inr (i, e) ↦
      elim (Bool-cases
        (is_nil (map (λ r. r.rowid) (select (is_link file_id (some i)) db.file_tag)))) [
          | inl q ↦ rw (unlink_tag-nil file_id tag db i e q) refl
          | inr q ↦ rw (unlink_tag-some file_id tag db i e q) refl
        ]
]

unlink_tags-Calm : (file_id : ℕ) (tags : List Text) → Calm (unlink_tags file_id tags)
unfolding unlink_tags
unlink_tags-Calm file_id [] = λ db. refl
unlink_tags-Calm file_id (tag ∷ tags) =
    bind-Calm (unlink_tag file_id tag) _ (unlink_tag-Calm file_id tag)
      (λ _. bind-Calm (unlink_tags file_id tags) _ (unlink_tags-Calm file_id tags) (λ _ db. refl))

remove_devicefile-Calm :
    (df : DeviceFile) (tags : List Text) (now : ℕ) → Calm (remove_devicefile df tags now)
unfolding remove_devicefile update_root_mtime
remove_devicefile-Calm df tags now db =
    bind-Calm (or_fail (file_id_at db df.device df.inode) query_returned_no_rows) _
      (or_fail-Calm (file_id_at db df.device df.inode) query_returned_no_rows)
      (λ file_id.
        bind-Calm (unlink_tags file_id tags) _ (unlink_tags-Calm file_id tags) (λ _ d. refl))
      db

contains_file-Calm :
    (tags : List TagType) (pred : TaggedFile → Bool) → Calm (contains_file tags pred)
unfolding contains_file files_tagged_with
contains_file-Calm tags pred db =
    elim (Bool-cases (only_negated (intersects_of tags) (excepts_of tags))) [
      | inl e ↦ rw (contains_file, files_tagged_with-failed tags db e, is_panic) refl
      | inr e ↦ rw (contains_file, files_tagged_with-done tags db e, is_panic) refl
    ]

unlinked_found :
    (found : Option TaggedFile) (tags : List Text) (now : ℕ)
    → Calm {E = SqlError} {A = List ℕ} (elim found [
      | none ↦ pure []
      | some tf ↦ do
        all_removed_ids ← unlink_tags tf.id tags
        update_root_mtime now
        pure all_removed_ids
    ])
unfolding update_root_mtime
unlinked_found none tags now = λ db. refl
unlinked_found (some tf) tags now =
    bind-Calm (unlink_tags tf.id tags) _ (unlink_tags-Calm tf.id tags) (λ _ d. refl)

remove_links-Calm :
    (primary_tag : Text) (tags : List TagType) (now : ℕ) → Calm (remove_links primary_tag tags now)
unfolding remove_links
remove_links-Calm primary_tag tags now =
    let named = λ (tf : TaggedFile). text_eq tf.primary_tag primary_tag in
    bind-Calm (contains_file tags named) _ (contains_file-Calm tags named)
      (λ found. unlinked_found found (collect_regular_names tags) now)

-- The path ends in the link of a file.
abbrev pub is_link_type : Option TagType → Bool
is_link_type (some (device_file_symlink _)) = true
is_link_type (some (symlink _)) = true
is_link_type _ = false

no_names :
    (tags : List TagType) → is_nil (collect_regular_names tags) ≡ is_nil (collect_regular tags)
unfolding collect_regular_names collect_regular
no_names [] = refl
no_names (regular _ ∷ tags) = refl
no_names (negation _ ∷ tags) = no_names tags
no_names (group _ ∷ tags) = no_names tags
no_names (file_dir ∷ tags) = no_names tags
no_names (device_file_symlink _ ∷ tags) = no_names tags
no_names (symlink _ ∷ tags) = no_names tags

-- `last().unwrap()` panics on the empty list alone.
unwrap_last :
    {A B : Type 0} (xs : List A) (f : A → STag B) (db : Db)
    → ((a : A) → Calm (f a))
    → is_panic ((unwrap (last? xs) >>= f) db) ≡ is_nil xs
unwrap_last [] f db h = refl
unwrap_last (x ∷ []) f db h = h x db
unwrap_last (x ∷ y ∷ xs) f db h = unwrap_last (y ∷ xs) f db h

module _ (syms : Symbols) (file : Text) (now : ℕ) (db : Db) where
  abbrev file_tags : List TagType
  file_tags = (Collection.new syms file).tags

  remove_file-panics :
      (t : TagType)
      → is_panic (remove_file file file_tags now t db)
        ≡ (is_link_type (some t) && is_nil (collect_regular_names file_tags))
  unfolding remove_file
  remove_file-panics (device_file_symlink df) =
      unwrap_last (collect_regular_names file_tags) _ db (λ tag.
        lift-Calm (remove_devicefile df (tag ∷ []) now) (remove_devicefile-Calm df (tag ∷ []) now))
  remove_file-panics (symlink name) =
      unwrap_last (collect_regular file_tags) _ db (λ tag.
        lift-Calm (remove_links name (tag ∷ []) now) (remove_links-Calm name (tag ∷ []) now))
      ∙ sym (no_names file_tags)
  remove_file-panics (regular _) = refl
  remove_file-panics (negation _) = refl
  remove_file-panics (group _) = refl
  remove_file-panics file_dir = refl

  -- `rm` panics on exactly the paths that end in the link of a file and have no regular tag,
  -- whatever the tables hold.
  pub rm-panics : is_panic (rm syms file now db) ≡ (
      is_link_type (Collection.last (Collection.new syms file))
      && is_nil (collect_regular_names (Collection.new syms file).tags))
  unfolding rm Collection.primary_type
  rm-panics = elim (Option-cases (Collection.last (Collection.new syms file))) [
    | inl e ↦ rw (e, is_panic) refl
    | inr (t, e) ↦ rw e (remove_file-panics t)
  ]
