-- ===== src/Tags/Pinnable.antt =====
-- What `collect_pinnable` keeps and drops.
use supertag.Base.{Bool, true, false, ◌≡◌, refl, ap, ◌∙◌, List, [], ◌∷◌, All}
use supertag.Tags.Collect.{
  collect_regular_names, pinnable_from, collect_pinnable, collect_tags_and_groups,
}
use supertag.Tags.Types.{TagType, regular, negation, group, file_dir, device_file_symlink, symlink}

-- What `pin_tags` accepts: on anything else it panics.
abbrev pub IsPinnable : TagType → Type 0
IsPinnable (regular _) = Unit
IsPinnable (group _) = Unit
IsPinnable _ = ⊥

abbrev pub IsGroup : TagType → Type 0
IsGroup (group _) = Unit
IsGroup _ = ⊥

-- No group directly follows a group; the first argument says whether one stands before the list.
abbrev pub NoGroupRun : Bool → List TagType → Type 0
NoGroupRun before [] = Unit
NoGroupRun before (regular _ ∷ rest) = NoGroupRun false rest
NoGroupRun true (group _ ∷ rest) = ⊥
NoGroupRun false (group _ ∷ rest) = NoGroupRun true rest
NoGroupRun before (_ ∷ rest) = NoGroupRun false rest

pinnable_from-IsPinnable : (b : Bool) (tags : List TagType) → All IsPinnable (pinnable_from b tags)
unfolding pinnable_from
pinnable_from-IsPinnable b [] = tt
pinnable_from-IsPinnable b (regular t ∷ rest) = (tt, pinnable_from-IsPinnable false rest)
pinnable_from-IsPinnable true (group t ∷ rest) = pinnable_from-IsPinnable true rest
pinnable_from-IsPinnable false (group t ∷ rest) = (tt, pinnable_from-IsPinnable true rest)
pinnable_from-IsPinnable b (negation t ∷ rest) = pinnable_from-IsPinnable false rest
pinnable_from-IsPinnable b (file_dir ∷ rest) = pinnable_from-IsPinnable false rest
pinnable_from-IsPinnable b (device_file_symlink t ∷ rest) = pinnable_from-IsPinnable false rest
pinnable_from-IsPinnable b (symlink t ∷ rest) = pinnable_from-IsPinnable false rest

names-pinnable_from :
    (b : Bool) (tags : List TagType)
    → collect_regular_names (pinnable_from b tags) ≡ collect_regular_names tags
unfolding pinnable_from collect_regular_names
names-pinnable_from b [] = refl
names-pinnable_from b (regular t ∷ rest) = ap (◌∷◌ t) (names-pinnable_from false rest)
names-pinnable_from true (group t ∷ rest) = names-pinnable_from true rest
names-pinnable_from false (group t ∷ rest) = names-pinnable_from true rest
names-pinnable_from b (negation t ∷ rest) = names-pinnable_from false rest
names-pinnable_from b (file_dir ∷ rest) = names-pinnable_from false rest
names-pinnable_from b (device_file_symlink t ∷ rest) = names-pinnable_from false rest
names-pinnable_from b (symlink t ∷ rest) = names-pinnable_from false rest

pinnable_from-NoGroupRun :
    (b : Bool) (tags : List TagType)
    → NoGroupRun b tags
    → pinnable_from b tags ≡ collect_tags_and_groups tags
unfolding pinnable_from collect_tags_and_groups
pinnable_from-NoGroupRun b [] h = refl
pinnable_from-NoGroupRun b (regular t ∷ rest) h =
    ap (◌∷◌ (regular t)) (pinnable_from-NoGroupRun false rest h)
pinnable_from-NoGroupRun true (group t ∷ rest) h = absurd h
pinnable_from-NoGroupRun false (group t ∷ rest) h =
    ap (◌∷◌ (group t)) (pinnable_from-NoGroupRun true rest h)
pinnable_from-NoGroupRun b (negation t ∷ rest) h = pinnable_from-NoGroupRun false rest h
pinnable_from-NoGroupRun b (file_dir ∷ rest) h = pinnable_from-NoGroupRun false rest h
pinnable_from-NoGroupRun b (device_file_symlink t ∷ rest) h = pinnable_from-NoGroupRun false rest h
pinnable_from-NoGroupRun b (symlink t ∷ rest) h = pinnable_from-NoGroupRun false rest h

-- What is collected for pinning consists of regular tags and groups alone, which is all that
-- `pin_tags` takes without a panic; every regular tag is kept, in order.
pub collect_pinnable_lem :
    (tags : List TagType)
    → All IsPinnable (collect_pinnable tags)
      × (collect_regular_names (collect_pinnable tags) ≡ collect_regular_names tags)
unfolding collect_pinnable
collect_pinnable_lem tags = (pinnable_from-IsPinnable false tags, names-pinnable_from false tags)

-- Where no group directly follows a group, the tags and groups are collected whole.
pub collect_pinnable-NoGroupRun :
    (tags : List TagType)
    → NoGroupRun false tags
    → collect_pinnable tags ≡ collect_tags_and_groups tags
unfolding collect_pinnable
collect_pinnable-NoGroupRun tags h = pinnable_from-NoGroupRun false tags h

tags_and_groups-whole :
    (tags : List TagType) → All IsPinnable tags → collect_tags_and_groups tags ≡ tags
unfolding collect_tags_and_groups
tags_and_groups-whole [] h = refl
tags_and_groups-whole (regular t ∷ rest) (_, h) =
    ap (◌∷◌ (regular t)) (tags_and_groups-whole rest h)
tags_and_groups-whole (group t ∷ rest) (_, h) = ap (◌∷◌ (group t)) (tags_and_groups-whole rest h)
tags_and_groups-whole (negation t ∷ rest) (h, _) = absurd h
tags_and_groups-whole (file_dir ∷ rest) (h, _) = absurd h
tags_and_groups-whole (device_file_symlink t ∷ rest) (h, _) = absurd h
tags_and_groups-whole (symlink t ∷ rest) (h, _) = absurd h

-- Of tags and groups alone, everything is then collected.
pub collect_pinnable-whole :
    (tags : List TagType)
    → All IsPinnable tags
    → NoGroupRun false tags
    → collect_pinnable tags ≡ tags
collect_pinnable-whole tags h spaced =
    collect_pinnable-NoGroupRun tags spaced ∙ tags_and_groups-whole tags h
