-- ===== src/Db/Select/Reads.antt =====
-- The queries leave the tables as they are.
use supertag.Base.{
  ℕ, ◌≡◌, refl, ◌∙◌, Bool, true, false, List, [], ◌∷◌, Option, none, some, Text, Bool-cases,
  Option-cases, inl, inr, last?, find, text_eq, map,
}
use supertag.Db.Monad.{
  Outcome, Tx, Ensures, Ensures-bind, done, failed, panicked, pure, fail_if, ◌>>=◌,
}
use supertag.Db.Query.{intersects_of, excepts_of, intersection_subquery}
use supertag.Db.Select.Files.{is_nothing, files_tagged_with, contains_file, get_num_files}
use supertag.Db.Select.Found.{only_negated, files_tagged_with-done, files_tagged_with-failed}
use supertag.Db.Select.Groups.{
  get_tags_in_tag_group, num_files_for_tag_group, tag_group_intersections, tag_groups_for_tags,
}
use supertag.Db.Select.Tags.{
  get_all_tags, prune, intersect_tag, found_files, init, num_files_for_intersection,
}
use supertag.Db.Store.{Db}
use supertag.Errors.{SqlError, other_failure}
use supertag.Rows.{TaggedFile, Tag}
use supertag.Rows.Int.{pos}
use supertag.Tags.Collect.{collect_regular}
use supertag.Tags.Types.{TagType, regular, negation, group, file_dir, device_file_symlink, symlink}

-- A run that succeeds leaves the tables it found.
abbrev pub Reads : {E A : Type 0} → Tx E A → Type 0
Reads m = (db : Db) → Ensures (λ _ d. d ≡ db) (m db)

pub bind-Reads :
    {E A B : Type 0} (m : Tx E A) (f : A → Tx E B)
    → Reads m
    → ((a : A) → Reads (f a))
    → Reads (m >>= f)
bind-Reads {E} {A} {B} m f h k db =
    Ensures-bind (λ _ d. d ≡ db) (λ _ d. d ≡ db) m f db (h db) (λ a d e. from (f a d) (k a d) e)
  where
    from :
        (r : Outcome E B) {d : Db}
        → Ensures (λ _ d'. d' ≡ d) r
        → d ≡ db
        → Ensures (λ _ d'. d' ≡ db) r
    from (done b d') p e = p ∙ e
    from (failed x) p e = tt
    from panicked p e = tt

pub files_tagged_with-Reads : (tags : List TagType) → Reads (files_tagged_with tags)
unfolding files_tagged_with
files_tagged_with-Reads tags db =
    elim (Bool-cases (only_negated (intersects_of tags) (excepts_of tags))) [
      | inl e ↦ rw (files_tagged_with-failed tags db e, Ensures) tt
      | inr e ↦ rw (files_tagged_with-done tags db e, Ensures) refl
    ]

fail_if-Reads : (b : Bool) (e : SqlError) → Reads (fail_if b e)
fail_if-Reads true e db = tt
fail_if-Reads false e db = refl

prune-Reads : (t : Option TagType) (tags : List Tag) → Reads (prune t tags)
unfolding prune
prune-Reads none tags db = refl
prune-Reads (some (group name)) tags db = refl
prune-Reads (some (regular _)) tags db = refl
prune-Reads (some (negation _)) tags db = refl
prune-Reads (some file_dir) tags db = refl
prune-Reads (some (device_file_symlink _)) tags db = refl
prune-Reads (some (symlink _)) tags db = refl

pub intersect_tag-Reads :
    (tags : List TagType) (exclude_provided : Bool) → Reads (intersect_tag tags exclude_provided)
unfolding intersect_tag get_all_tags
intersect_tag-Reads [] b = λ db. refl
intersect_tag-Reads (t ∷ tags) b = λ db.
    let asked = is_nothing (intersection_subquery db (t ∷ tags) 0).0 in
    bind-Reads (fail_if asked other_failure) _ (fail_if-Reads asked other_failure)
      (λ _ d. prune-Reads (last? (t ∷ tags)) _ d) db

pub contains_file-Reads :
    (tags : List TagType) (pred : TaggedFile → Bool) → Reads (contains_file tags pred)
unfolding contains_file
contains_file-Reads tags pred =
    bind-Reads (files_tagged_with tags) _ (files_tagged_with-Reads tags) (λ _ db. refl)

pub get_num_files-Reads : (tags : List TagType) → Reads (get_num_files tags)
unfolding get_num_files
get_num_files-Reads tags =
    bind-Reads (files_tagged_with tags) _ (files_tagged_with-Reads tags) (λ _ db. refl)

pub num_files_for_tag_group-Reads : (name : Text) → Reads (num_files_for_tag_group name)
unfolding num_files_for_tag_group get_tags_in_tag_group
num_files_for_tag_group-Reads name db = refl

pub tag_groups_for_tags-Reads : (ids : List ℕ) → Reads (tag_groups_for_tags ids)
unfolding tag_groups_for_tags
tag_groups_for_tags-Reads [] db = refl
tag_groups_for_tags-Reads (i ∷ ids) db = refl

counted_last :
    (t : TagType) (itags : List Tag)
    → Reads {E = SqlError} (elim t [
      | regular last_tag_name ↦
          pure (found_files (find (λ tag. text_eq tag.name last_tag_name) itags))
      | negation _ ↦ pure (pos 0)
      | group _ ↦ pure (pos 0)
      | file_dir ↦ pure (pos 0)
      | device_file_symlink _ ↦ pure (pos 0)
      | symlink _ ↦ pure (pos 0)
    ])
counted_last (regular name) itags db = refl
counted_last (negation _) itags db = refl
counted_last (group _) itags db = refl
counted_last file_dir itags db = refl
counted_last (device_file_symlink _) itags db = refl
counted_last (symlink _) itags db = refl

num_files_for_intersection-Reads : (tags : List TagType) → Reads (num_files_for_intersection tags)
unfolding num_files_for_intersection
num_files_for_intersection-Reads tags db = elim (Option-cases (last? (collect_regular tags))) [
  | inl e ↦ rw (e, num_files_for_intersection, Ensures) refl
  | inr (t, e) ↦
      rw (e, num_files_for_intersection)
        (bind-Reads (intersect_tag (init (collect_regular tags)) true) _
          (intersect_tag-Reads (init (collect_regular tags)) true) (counted_last t) db)
]

pub tag_group_intersections-Reads : (tags : List TagType) → Reads (tag_group_intersections tags)
unfolding tag_group_intersections
tag_group_intersections-Reads tags =
    bind-Reads (intersect_tag tags true) _ (intersect_tag-Reads tags true) (λ itags.
      bind-Reads (num_files_for_intersection tags) _ (num_files_for_intersection-Reads tags) (λ n.
        bind-Reads (tag_groups_for_tags (map (λ t. t.id) itags)) _
          (tag_groups_for_tags-Reads (map (λ t. t.id) itags)) (λ groups db. refl)))
