-- ===== src/Tags/Tests.antt =====
-- Examples for the tags.
use supertag.Base.{◌≡◌, refl, List, [], ◌∷◌, codes}
use supertag.Tags.Collect.{pinnable_from, collect_pinnable}
use supertag.Tags.Types.{TagType, regular, negation, group, file_dir}

abbrev mixed : List TagType
mixed =
    group (codes "genre")
    ∷ group (codes "era")
    ∷ regular (codes "rock")
    ∷ negation (codes "live")
    ∷ file_dir
    ∷ []

first_group : collect_pinnable mixed ≡ group (codes "genre") ∷ regular (codes "rock") ∷ []
unfolding collect_pinnable pinnable_from
first_group = refl

abbrev spaced : List TagType
spaced = group (codes "genre") ∷ regular (codes "rock") ∷ negation (codes "live") ∷ []
