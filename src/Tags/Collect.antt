-- ===== src/Tags/Collect.antt =====
-- `TagCollectible`: what is collected from a sequence of tags.
use supertag.Base.{Bool, true, false, List, [], ◌∷◌, Text}
use supertag.Tags.Types.{TagType, regular, group}

unfoldable pub collect_regular_names : List TagType → List Text
collect_regular_names [] = []
collect_regular_names (regular tag ∷ rest) = tag ∷ collect_regular_names rest
collect_regular_names (_ ∷ rest) = collect_regular_names rest

unfoldable pub collect_regular : List TagType → List TagType
collect_regular [] = []
collect_regular (regular tag ∷ rest) = regular tag ∷ collect_regular rest
collect_regular (_ ∷ rest) = collect_regular rest

-- The loop of `collect_pinnable`; the first argument is `last_was_group`.
unfoldable pub pinnable_from : Bool → List TagType → List TagType
pinnable_from last_was_group [] = []
pinnable_from last_was_group (regular tag ∷ rest) = regular tag ∷ pinnable_from false rest
pinnable_from true (group tag ∷ rest) = pinnable_from true rest
pinnable_from false (group tag ∷ rest) = group tag ∷ pinnable_from true rest
pinnable_from last_was_group (_ ∷ rest) = pinnable_from false rest

unfoldable pub collect_pinnable : List TagType → List TagType
unfolding pinnable_from
collect_pinnable tags = pinnable_from false tags

unfoldable pub collect_tags_and_groups : List TagType → List TagType
collect_tags_and_groups [] = []
collect_tags_and_groups (regular tag ∷ rest) = regular tag ∷ collect_tags_and_groups rest
collect_tags_and_groups (group tag ∷ rest) = group tag ∷ collect_tags_and_groups rest
collect_tags_and_groups (_ ∷ rest) = collect_tags_and_groups rest

-- `windows(2)` that hold a group followed by a regular tag.
unfoldable pub taggroup_pairs : List TagType → List (Text × Text)
taggroup_pairs [] = []
taggroup_pairs (group g ∷ regular tag ∷ rest) = (g, tag) ∷ taggroup_pairs (regular tag ∷ rest)
taggroup_pairs (_ ∷ rest) = taggroup_pairs rest
