-- ===== src/Db/Pins/Reads.antt =====
-- The listing of the pins below a path leaves the tables as they are.
use supertag.Base.{
  ℕ, refl, List, [], ◌∷◌, Option, none, some, Text, Bool-cases, inl, inr, ◌==◌, ltb, length, drop,
  if◌then◌else◌, select,
}
use supertag.Db.Lookup.{get_tag_by_id}
use supertag.Db.Monad.{Ensures, pure, gets, unwrap, ◌>>=◌}
use supertag.Db.Pins.{
  first_chunk, parse_id, found_group, found_tag, pinned_chunk, pinned_below, pinned_subdirs,
  build_pintag_prefix, build_pintag_record,
}
use supertag.Db.Pins.Like.{like}
use supertag.Db.Select.Groups.{get_tag_group_by_id}
use supertag.Db.Select.Reads.{Reads, bind-Reads}
use supertag.Errors.{SqlError}
use supertag.Rows.{TagOrTagGroup}
use supertag.Tags.Types.{TagType}

unwrap-Reads : (A : Type 0) (o : Option A) → Reads {E = SqlError} (unwrap o)
unwrap-Reads A none db = tt
unwrap-Reads A (some a) db = refl

by_id :
    (o : Option ℕ)
    → Reads {E = SqlError} {A = List TagOrTagGroup} (elim o [
      | none ↦ pure []
      | some group_id ↦
          get_tag_group_by_id group_id >>= λ maybe_group. pure (found_group maybe_group)
    ])
unfolding get_tag_group_by_id
by_id none = λ db. refl
by_id (some i) = λ db. refl

tag_by_id :
    (o : Option ℕ)
    → Reads {E = SqlError} {A = List TagOrTagGroup}
        (elim o [ none ↦ pure [] | some tag_id ↦ gets (λ db. found_tag (get_tag_by_id db tag_id)) ])
tag_by_id none db = refl
tag_by_id (some i) db = refl

pinned_chunk-Reads : (chunk : Text) → Reads (pinned_chunk chunk)
unfolding pinned_chunk
pinned_chunk-Reads [] db = refl
pinned_chunk-Reads (c ∷ chunk) db = elim (Bool-cases (c == b'g')) [
  | inl e ↦ rw (e, pinned_chunk) (by_id (parse_id (c ∷ chunk)) db)
  | inr e ↦ elim (Bool-cases (c == b't')) [
    | inl f ↦ rw (e, f, pinned_chunk) (tag_by_id (parse_id (c ∷ chunk)) db)
    | inr f ↦ rw (e, f, pinned_chunk, Ensures) refl
  ]
]

pinned_below-Reads : (strip_len : ℕ) (ids : List Text) → Reads (pinned_below strip_len ids)
unfolding pinned_below
pinned_below-Reads n [] = λ db. refl
pinned_below-Reads n (s ∷ rest) =
    bind-Reads (unwrap (if ltb (length s) n then none else some (drop n s))) _
      (unwrap-Reads Text (if ltb (length s) n then none else some (drop n s)))
      (λ behind.
        bind-Reads (pinned_chunk (first_chunk behind)) _ (pinned_chunk-Reads (first_chunk behind))
          (λ records.
            bind-Reads (pinned_below n rest) _ (pinned_below-Reads n rest) (λ others db. refl)))

stripped :
    (maybe_strip : Option Text) (ids : List Text)
    → Reads {E = SqlError} {A = List TagOrTagGroup} (elim maybe_strip [
      | none ↦ pure []
      | some strip_prefix ↦ pinned_below (length strip_prefix) ids
    ])
stripped none ids = λ db. refl
stripped (some p) ids = pinned_below-Reads (length p) ids

joined :
    (tags : List TagType) (maybe : Option Text)
    → Reads {E = SqlError} {A = List TagOrTagGroup} (elim maybe [
      | none ↦ pure []
      | some joined_tag_ids ↦ gets (λ db. select (like joined_tag_ids) db.pins) >>= λ all_tag_ids.
          gets (λ db. build_pintag_record db tags) >>= λ maybe_strip. elim maybe_strip [
            | none ↦ pure []
            | some strip_prefix ↦ pinned_below (length strip_prefix) all_tag_ids
          ]
    ])
joined tags none = λ db. refl
joined tags (some prefix) =
    λ db. stripped (build_pintag_record db tags) (select (like prefix) db.pins) db

pub pinned_subdirs-Reads : (tags : List TagType) → Reads (pinned_subdirs tags)
unfolding pinned_subdirs
pinned_subdirs-Reads tags db = joined tags (build_pintag_prefix db tags) db
