-- ===== src/Tags/Collection.antt =====
-- `TagCollection`: a path with its tags.
use supertag.Base.{
  ℕ, ◌-◌, Bool, List, [], ◌∷◌, ◌++◌, map, Option, none, some, Text, length, take, last?, get_elem?,
  ltb, if◌then◌else◌, ends_with, ok_or,
}
use supertag.Errors.{STagResult, not_enough_tags}
use supertag.Names.{separator}
use supertag.Settings.{path_to_tags, to_path_part}
use supertag.Symbols.{Symbols}
use supertag.Tags.Types.{TagType}

pub record TagCollection : Type 0 where
  pub path : Text
  pub tags : List TagType
  pub unlinking : Bool

unfoldable pub new : Symbols → Text → TagCollection
new syms path = record {
  path = path;
  tags = path_to_tags syms path;
  unlinking = ends_with path (syms.sync_char ∷ []);
}

unfoldable pub pop : TagCollection → TagCollection × Option TagType
pop c = (record c { tags = take (length c.tags - 1) c.tags }, last? c.tags)

unfoldable pub push : TagCollection → TagType → TagCollection
push c val = record c { tags = c.tags ++ val ∷ [] }

abbrev pub first? {ℓ} : {A : Type ℓ} → List A → Option A
first? [] = none
first? (x ∷ xs) = some x

unfoldable pub first : TagCollection → Option TagType
first c = first? c.tags

unfoldable pub last : TagCollection → Option TagType
last c = last? c.tags

-- `[T]::join`
unfoldable pub join : ℕ → List Text → Text
join sep [] = []
join sep (s ∷ []) = s
join sep (s ∷ t ∷ rest) = s ++ sep ∷ join sep (t ∷ rest)

unfoldable pub join_path : Symbols → TagCollection → Text
join_path syms c = join separator (map (to_path_part syms) c.tags)

-- `[..len - 1]`: `none` where the subtraction overflows and the program panics.
unfoldable pub all_but_last : TagCollection → Option (List TagType)
all_but_last c = if ltb 0 (length c.tags) then some (take (length c.tags - 1) c.tags) else none

-- The index is computed as `i32`, so a length below two gives a negative one.
unfoldable pub primary_parent : TagCollection → Option TagType
primary_parent c = if ltb (length c.tags) 2 then none else get_elem? c.tags (length c.tags - 2)

unfoldable pub primary_type : TagCollection → STagResult TagType
unfolding last
primary_type c = ok_or (last c) not_enough_tags
