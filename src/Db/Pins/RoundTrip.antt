-- ===== src/Db/Pins/RoundTrip.antt =====
-- What `pin_tags` pins is found pinned, with every path above it.
use supertag.Base.{
  ℕ, ◌-◌, ◌≡◌, ◌≢◌, refl, ap, ◌∙◌, true, List, [], ◌∷◌, ◌++◌, Option, some, arith, Text, All,
  length, get_elem?, ltb, Option-cases, Bool-cases, inl, inr,
}
use supertag.Db.Consistent.{IsConsistent}
use supertag.Db.Ensure.{ensure_tag, ensure_tag_group}
use supertag.Db.Lookup.{get_tag_id, get_tag_group_id}
use supertag.Db.Monad.{Returns, Returns-bind}
use supertag.Db.Pins.{
  slash, tag_pin, group_pin, ensure_pins, group_pair, group_last, pin_tags, pin_ids_of,
  build_pintag_prefix, is_pinned,
}
use supertag.Db.Pins.Like.{like}
use supertag.Db.Pins.Prefix.{
  Plain, like_below, tag_pin-Plain, group_pin-Plain, join-Plain, join-append, find_last,
}
use supertag.Db.Pins.Stable.{ensure_tag_group-Grows, pin_ids_of-Same, add_tag_to_group-Same}
use supertag.Db.Preserve.Ensure.{ensure_tag-Grows}
use supertag.Db.Preserve.Framed.{Frames-IsConsistent}
use supertag.Db.Preserve.Grows.{Grows, Grows-refl, Grows-trans}
use supertag.Db.Store.{Db, Engine, IsFresh}
use supertag.Perms.Permissions.{Permissions}
use supertag.Tags.Collection
use supertag.Tags.Pinnable.{IsPinnable}
use supertag.Tags.Types.{TagType, regular, negation, group, file_dir, device_file_symlink, symlink}

pin_ids_of-regular :
    (db : Db) (name : Text) (tags : List TagType) (i : ℕ) (ids : List Text)
    → get_tag_id db name ≡ some i
    → pin_ids_of db tags ≡ some ids
    → pin_ids_of db (regular name ∷ tags) ≡ some (tag_pin i ∷ ids)
unfolding pin_ids_of
pin_ids_of-regular db name tags i ids e f = rw (e, f, pin_ids_of) refl

pin_ids_of-group :
    (db : Db) (name : Text) (tags : List TagType) (i : ℕ) (ids : List Text)
    → get_tag_group_id db name ≡ some i
    → pin_ids_of db tags ≡ some ids
    → pin_ids_of db (group name ∷ tags) ≡ some (group_pin i ∷ ids)
unfolding pin_ids_of
pin_ids_of-group db name tags i ids e f = rw (e, f, pin_ids_of) refl

module _ (engine : Engine) (fresh : IsFresh engine) (uid gid : ℕ) (permissions : Permissions)
    (now : ℕ) where
  -- The loop returns the ids that the path has in the end.
  ensure_pins_lem :
      (tags : List TagType) (db : Db)
      → IsConsistent db
      → All IsPinnable tags
      → Returns
          (λ ids d. IsConsistent d × Grows db d × (pin_ids_of d tags ≡ some ids))
          (ensure_pins engine uid gid permissions now tags db)
  unfolding ensure_pins
  ensure_pins_lem [] db c h = (c, Grows-refl db, unfold pin_ids_of in refl)
  ensure_pins_lem (regular name ∷ tags) db c (_, h) =
      Returns-bind _ _ (ensure_tag engine name uid gid permissions now) _ db
        (ensure_tag-Grows engine fresh name uid gid permissions now db c)
        (λ r d (k, _, e, _, g). rw e (
          Returns-bind _ _ (ensure_pins engine uid gid permissions now tags) _ d
            (ensure_pins_lem tags d k h)
            (λ ids d' (k', g', f). (
              k',
              Grows-trans db d d' g g',
              pin_ids_of-regular d' name tags r.1 ids (g'.ids_stay name r.1 e) f,
            ))))
  ensure_pins_lem (group name ∷ tags) db c (_, h) =
      Returns-bind _ _ (ensure_tag_group engine name uid gid permissions now) _ db
        (ensure_tag_group-Grows engine name uid gid permissions now db c)
        (λ _ d (k, g, (i, e)). rw e (
          Returns-bind _ _ (ensure_pins engine uid gid permissions now tags) _ d
            (ensure_pins_lem tags d k h)
            (λ ids d' (k', g', f). (
              k',
              Grows-trans db d d' g g',
              pin_ids_of-group d' name tags i ids (g'.groups_stay name i e) f,
            ))))
  ensure_pins_lem (negation _ ∷ tags) db c (h, _) = absurd h
  ensure_pins_lem (file_dir ∷ tags) db c (h, _) = absurd h
  ensure_pins_lem (device_file_symlink _ ∷ tags) db c (h, _) = absurd h
  ensure_pins_lem (symlink _ ∷ tags) db c (h, _) = absurd h

  group_pair_lem :
      (before last : Option TagType) (db : Db)
      → Returns
          (λ _ d.
            (d.tags ≡ db.tags)
            × (d.tag_groups ≡ db.tag_groups)
            × (d.files ≡ db.files)
            × (d.file_tag ≡ db.file_tag))
          (group_pair engine uid gid permissions now before last db)
  unfolding group_pair
  group_pair_lem (some (group name)) (some (regular tag)) db =
      add_tag_to_group-Same tag name uid gid permissions now db
  group_pair_lem before last db = (refl, refl, refl, refl)

  group_last_lem :
      (tags : List TagType) (db : Db)
      → Returns
          (λ _ d.
            (d.tags ≡ db.tags)
            × (d.tag_groups ≡ db.tag_groups)
            × (d.files ≡ db.files)
            × (d.file_tag ≡ db.file_tag))
          (group_last engine uid gid permissions now tags db)
  unfolding group_last
  group_last_lem tags db = elim (Bool-cases (ltb (length tags) 2)) [
    | inl e ↦ rw (e, group_last, Returns) (refl, refl, refl, refl)
    | inr e ↦
        rw (e, group_last)
          (group_pair_lem (get_elem? tags (length tags - 2)) (get_elem? tags (length tags - 1)) db)
  ]

-- The ids of a path that continues another begin with that one's.
pin_ids_of-append :
    (db : Db) (above below : List TagType) (ids : List Text)
    → pin_ids_of db (above ++ below) ≡ some ids
    → (first : List Text) × (rest : List Text) × (pin_ids_of db above ≡ some first)
      × (ids ≡ first ++ rest)
      × All Plain first
unfolding pin_ids_of
pin_ids_of-append db [] below ids h = ([], ids, refl, refl, tt)
pin_ids_of-append db (regular name ∷ above) below ids h = elim (Option-cases (get_tag_id db name)) [
  | inl e ↦ absurd (ground arith)
  | inr (i, e) ↦ elim (Option-cases (pin_ids_of db (above ++ below))) [
    | inl f ↦ absurd (ground arith)
    | inr (more, f) ↦
        let (first, rest, p, q, plain) = pin_ids_of-append db above below more f in
        let whole : ids ≡ tag_pin i ∷ more = ground arith in
        (
          tag_pin i ∷ first,
          rest,
          pin_ids_of-regular db name above i first e p,
          whole ∙ ap (◌∷◌ (tag_pin i)) q,
          (tag_pin-Plain i, plain),
        )
  ]
]
pin_ids_of-append db (group name ∷ above) below ids h =
    elim (Option-cases (get_tag_group_id db name)) [
      | inl e ↦ absurd (ground arith)
      | inr (i, e) ↦ elim (Option-cases (pin_ids_of db (above ++ below))) [
        | inl f ↦ absurd (ground arith)
        | inr (more, f) ↦
            let (first, rest, p, q, plain) = pin_ids_of-append db above below more f in
            let whole : ids ≡ group_pin i ∷ more = ground arith in
            (
              group_pin i ∷ first,
              rest,
              pin_ids_of-group db name above i first e p,
              whole ∙ ap (◌∷◌ (group_pin i)) q,
              (group_pin-Plain i, plain),
            )
      ]
    ]
pin_ids_of-append db (negation _ ∷ above) below ids h = pin_ids_of-append db above below ids h
pin_ids_of-append db (file_dir ∷ above) below ids h = pin_ids_of-append db above below ids h
pin_ids_of-append db (device_file_symlink _ ∷ above) below ids h =
    pin_ids_of-append db above below ids h
pin_ids_of-append db (symlink _ ∷ above) below ids h = pin_ids_of-append db above below ids h

-- With that pin at the end, every path above is pinned.
is_pinned-last :
    (db : Db) (above : List TagType) (s : Text) (first rest pins : List Text)
    → pin_ids_of db above ≡ some (s ∷ first)
    → All Plain (s ∷ first)
    → db.pins ≡ pins ++ (Collection.join slash ((s ∷ first) ++ rest) ++ slash ∷ []) ∷ []
    → is_pinned db above ≡ true
unfolding is_pinned build_pintag_prefix
is_pinned-last db above s first rest pins e plain p =
    let (after, q) = join-append s first rest in
    let lit = Collection.join slash (s ∷ first) in
    rw (e, is_pinned, build_pintag_prefix, p, q)
      (find_last (like (lit ++ slash ∷ b'%' ∷ [])) pins (lit ++ slash ∷ after)
        (like_below lit after (join-Plain (s ∷ first) plain)))

has_id :
    (db : Db) (t : TagType) (above : List TagType)
    → IsPinnable t
    → pin_ids_of db (t ∷ above) ≢ some []
unfolding pin_ids_of
has_id db (regular name) above h e = elim (Option-cases (get_tag_id db name)) [
  | inl f ↦ ground arith
  | inr (i, f) ↦ elim (Option-cases (pin_ids_of db above)) [
    | inl g ↦ ground arith
    | inr (ids, g) ↦ ground arith
  ]
]
has_id db (group name) above h e = elim (Option-cases (get_tag_group_id db name)) [
  | inl f ↦ ground arith
  | inr (i, f) ↦ elim (Option-cases (pin_ids_of db above)) [
    | inl g ↦ ground arith
    | inr (ids, g) ↦ ground arith
  ]
]
has_id db (negation _) above h e = h
has_id db file_dir above h e = h
has_id db (device_file_symlink _) above h e = h
has_id db (symlink _) above h e = h

is_pinned-pin :
    (db : Db) (t : TagType) (above : List TagType) (first rest pins : List Text)
    → IsPinnable t
    → pin_ids_of db (t ∷ above) ≡ some first
    → All Plain first
    → db.pins ≡ pins ++ (Collection.join slash (first ++ rest) ++ slash ∷ []) ∷ []
    → is_pinned db (t ∷ above) ≡ true
is_pinned-pin db t above [] rest pins h e plain p = absurd (has_id db t above h e)
is_pinned-pin db t above (s ∷ first) rest pins h e plain p =
    is_pinned-last db (t ∷ above) s first rest pins e plain p

module _ (engine : Engine) (fresh : IsFresh engine) (uid gid : ℕ) (permissions : Permissions)
    (now : ℕ) where
  -- For consistent tables, an engine that gives fresh ids, and a path of regular tags and groups
  -- alone, `pin_tags` succeeds: it does not panic, the tables stay consistent, and the path and every
  -- path above it except the root is found pinned.
  pub pin_tags-is_pinned :
      (t : TagType) (above below : List TagType) (db : Db)
      → IsConsistent db
      → All IsPinnable ((t ∷ above) ++ below)
      → Returns
          (λ _ d. IsConsistent d × (is_pinned d (t ∷ above) ≡ true))
          (pin_tags engine uid gid permissions now ((t ∷ above) ++ below) db)
  unfolding pin_tags
  pin_tags-is_pinned t above below db c h =
      let tags = (t ∷ above) ++ below in
      Returns-bind _ _ (ensure_pins engine uid gid permissions now tags) _ db
        (ensure_pins_lem engine fresh uid gid permissions now tags db c h)
        (λ ids d (k, _, e).
          Returns-bind _ _ (group_last engine uid gid permissions now tags) _ d
            (group_last_lem engine fresh uid gid permissions now tags d)
            (λ _ d' (t_same, g_same, f_same, l_same).
              let pin = Collection.join slash ids ++ slash ∷ [] in
              let d'' : Db = record d' { pins = d'.pins ++ pin ∷ [] } in
              let (first, rest, p, q, plain) =
                pin_ids_of-append d'' (t ∷ above) below ids
                  (pin_ids_of-Same d d'' t_same g_same tags ∙ e) in
              (
                Frames-IsConsistent d d'' (t_same, f_same, l_same) k,
                is_pinned-pin d'' t above first rest d'.pins h.0 p plain
                    (ap (λ x. d'.pins ++ (Collection.join slash x ++ slash ∷ []) ∷ []) q),
              )))
