-- ===== src/Db/Pins.antt =====
-- Pins: `pin_tags`, `is_pinned` and `pinned_subdirs`. A pin is the text of the ids of a path.
pub mod Reads
pub mod Like
pub mod Prefix
pub mod Stable
pub mod RoundTrip
use supertag.Base.{
  ℕ, ◌+◌, ◌-◌, ◌^◌, Bool, true, false, List, [], ◌∷◌, ◌++◌, Option, none, some, Text, length, drop,
  ltb, get_elem?, find, select, ◌==◌, if◌then◌else◌, nat_eq, chars_eq,
}
use supertag.Base.Unique.{is_some}
use supertag.Db.Ensure.{ensure_tag, ensure_tag_group, add_tag_to_group}
use supertag.Db.Lookup.{get_tag_id, get_tag_group_id, get_tag_by_id}
use supertag.Db.Monad.{Sql, pure, gets, modify, panic, unwrap, or_fail, ◌>>=◌, ◌>>◌}
use supertag.Db.Pins.Like.{like}
use supertag.Db.Select.Groups.{get_tag_group_by_id}
use supertag.Db.Store.{Db, Engine}
use supertag.Errors.{query_returned_no_rows}
use supertag.Perms.Permissions.{Permissions}
use supertag.Radix
use supertag.Rows.{Tag, TagGroup, TagOrTagGroup, tag, group}
use supertag.Tags.Collection
use supertag.Tags.Types
use supertag.Tags.Types.{TagType, regular}

abbrev pub slash : ℕ
slash = b'/'

-- `format!("t{}", tag_id)` and `format!("g{}", group_id)`
abbrev pub tag_pin : ℕ → Text
tag_pin tag_id = b't' ∷ Radix.format 10 tag_id

abbrev pub group_pin : ℕ → Text
group_pin group_id = b'g' ∷ Radix.format 10 group_id

module _ (engine : Engine) (uid gid : ℕ) (permissions : Permissions) (now : ℕ) where
  -- The loop of `pin_tags`: it panics on anything but a regular tag or a group.
  unfoldable pub ensure_pins : List TagType → Sql (List Text)
  ensure_pins [] = pure []
  ensure_pins (regular name ∷ tags) = do
    (_, _) ← ensure_tag engine name uid gid permissions now
    maybe_id ← gets (λ db. get_tag_id db name)
    tag_id ← or_fail maybe_id query_returned_no_rows
    rest ← ensure_pins tags
    pure (tag_pin tag_id ∷ rest)
  ensure_pins (Types.group name ∷ tags) = do
    ensure_tag_group engine name uid gid permissions now
    maybe_id ← gets (λ db. get_tag_group_id db name)
    group_id ← or_fail maybe_id query_returned_no_rows
    rest ← ensure_pins tags
    pure (group_pin group_id ∷ rest)
  ensure_pins (_ ∷ tags) = panic

  -- A tag at the end behind a group is put into it.
  unfoldable pub group_pair : Option TagType → Option TagType → Sql (Unit {0})
  group_pair (some (Types.group name)) (some (regular tag_name)) =
      add_tag_to_group tag_name name uid gid permissions now
  group_pair _ _ = pure tt

  unfoldable pub group_last : List TagType → Sql (Unit {0})
  unfolding group_pair
  group_last tags = elim (ltb (length tags) 2) [
    | true ↦ pure tt
    | false ↦ group_pair (get_elem? tags (length tags - 2)) (get_elem? tags (length tags - 1))
  ]

  unfoldable pub pin_tags : List TagType → Sql (Unit {0})
  unfolding ensure_pins group_last
  pin_tags tags = do
    pin_ids ← ensure_pins tags
    group_last tags
    modify
        (λ db. record db { pins = db.pins ++ (Collection.join slash pin_ids ++ slash ∷ []) ∷ [] })

-- The ids of a path, `none` where a name does not exist; other parts are left out.
unfoldable pub pin_ids_of : Db → List TagType → Option (List Text)
pin_ids_of db [] = some []
pin_ids_of db (regular name ∷ tags) =
    let rest = pin_ids_of db tags in
    elim (get_tag_id db name) [
      | none ↦ none
      | some tag_id ↦ elim rest [ none ↦ none | some ids ↦ some (tag_pin tag_id ∷ ids) ]
    ]
pin_ids_of db (Types.group name ∷ tags) =
    let rest = pin_ids_of db tags in
    elim (get_tag_group_id db name) [
      | none ↦ none
      | some group_id ↦ elim rest [ none ↦ none | some ids ↦ some (group_pin group_id ∷ ids) ]
    ]
pin_ids_of db (_ ∷ tags) = pin_ids_of db tags

unfoldable pub build_pintag_record : Db → List TagType → Option Text
unfolding pin_ids_of
build_pintag_record db tags = elim (pin_ids_of db tags) [
  | none ↦ none
  | some pin_ids ↦ some (Collection.join slash pin_ids ++ slash ∷ [])
]

unfoldable pub build_pintag_prefix : Db → List TagType → Option Text
unfolding pin_ids_of
build_pintag_prefix db tags = elim (pin_ids_of db tags) [
  | none ↦ none
  | some pin_ids ↦ some (Collection.join slash pin_ids ++ slash ∷ b'%' ∷ [])
]

unfoldable pub is_pinned : Db → List TagType → Bool
unfolding build_pintag_prefix
is_pinned db tags = elim (build_pintag_prefix db tags) [
  | none ↦ false
  | some joined_tag_ids ↦ is_some (find (like joined_tag_ids) db.pins)
]

-- `split("/").nth(0)`
unfoldable pub first_chunk : Text → Text
first_chunk [] = []
first_chunk (c ∷ s) = let rest = first_chunk s in if c == slash then [] else c ∷ rest

-- `parse::<i64>` behind the first character; ids are not negative.
abbrev pub parse_id : Text → Option ℕ
parse_id chunk = Radix.parse 10 (2 ^ 63) (drop 1 chunk)

abbrev pub found_group : Option TagGroup → List TagOrTagGroup
found_group none = []
found_group (some g) = group g ∷ []

abbrev pub found_tag : Option Tag → List TagOrTagGroup
found_tag none = []
found_tag (some t) = tag t ∷ []

-- What a chunk of a pin stands for, if anything.
unfoldable pub pinned_chunk : Text → Sql (List TagOrTagGroup)
pinned_chunk [] = pure []
pinned_chunk (c ∷ chunk) =
    if c == b'g'
    then elim (parse_id (c ∷ chunk)) [
      | none ↦ pure []
      | some group_id ↦ do
        maybe_group ← get_tag_group_by_id group_id
        pure (found_group maybe_group)
    ]
    else if c == b't'
    then elim (parse_id (c ∷ chunk)) [
      | none ↦ pure []
      | some tag_id ↦ gets (λ db. found_tag (get_tag_by_id db tag_id))
    ]
    else pure []

-- The slice panics where the pin is shorter than what is stripped.
unfoldable pub pinned_below : ℕ → List Text → Sql (List TagOrTagGroup)
unfolding pinned_chunk
pinned_below strip_len [] = pure []
pinned_below strip_len (tag_id_str ∷ rest) = do
  behind ←
      unwrap (if ltb (length tag_id_str) strip_len then none else some (drop strip_len tag_id_str))
  records ← pinned_chunk (first_chunk behind)
  others ← pinned_below strip_len rest
  pure (records ++ others)

unfoldable pub pinned_subdirs : List TagType → Sql (List TagOrTagGroup)
unfolding pinned_below
pinned_subdirs tags = do
  maybe_joined_tag_ids ← gets (λ db. build_pintag_prefix db tags)
  elim maybe_joined_tag_ids [
    | none ↦ pure []
    | some joined_tag_ids ↦ do
      all_tag_ids ← gets (λ db. select (like joined_tag_ids) db.pins)
      maybe_strip ← gets (λ db. build_pintag_record db tags)
      elim maybe_strip [
        | none ↦ pure []
        | some strip_prefix ↦ pinned_below (length strip_prefix) all_tag_ids
      ]
  ]
