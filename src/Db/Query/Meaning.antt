-- ===== src/Db/Query/Meaning.antt =====
-- What the subquery selects in the tables, and what a path asks for.
use supertag.Base.{
  ℕ, ◌-◌, Bool, true, false, not, ◌&&◌, List, [], ◌∷◌, Option, none, some, Text, get_elem?, ◌==◌,
  find, mem, chars_eq,
}
use supertag.Base.Unique.{is_some}
use supertag.Db.Lookup.{named}
use supertag.Db.Query
use supertag.Db.Query.{Subquery, tag_name_is, tag_name_in, intersection, except, nothing}
use supertag.Db.Store.{Db, TagRow}

-- A link of the file leads to a tag that the test selects.
abbrev pub tagged_by : Db → (TagRow → Bool) → ℕ → Bool
tagged_by db test file_id = is_some (
    find (λ r. r.file_id == file_id && is_some (find (λ t. t.id == r.tag_id && test t) db.tags))
      db.file_tag)

abbrev pub tagged : Db → ℕ → Text → Bool
tagged db file_id name = tagged_by db (named name) file_id

abbrev pub tagged_in : Db → ℕ → List Text → Bool
tagged_in db file_id names = tagged_by db (λ t. mem t.tag_name names) file_id

abbrev pub every {ℓ} : {A : Type ℓ} → (A → Bool) → List A → Bool
every p [] = true
every p (x ∷ xs) = p x && every p xs

-- The value of parameter `?i`
abbrev pub bound : List Text → ℕ → Option Text
bound env i = get_elem? env (i - 1)

abbrev pub bound_all : List Text → List ℕ → List Text
bound_all env [] = []
bound_all env (i ∷ is) = elim (bound env i) [
  | none ↦ bound_all env is
  | some name ↦ name ∷ bound_all env is
]

-- Whether SQLite finds the file in the result, with the parameters bound to the texts.
abbrev pub finds : Db → List Text → ℕ → Subquery → Bool
finds db env file_id (tag_name_is i) = elim (bound env i) [
  | none ↦ false
  | some name ↦ tagged db file_id name
]
finds db env file_id (tag_name_in is) = tagged_in db file_id (bound_all env is)

abbrev pub selects : Db → List Text → ℕ → Query.Query → Bool
selects db env file_id (intersection []) = false
selects db env file_id (intersection (q ∷ qs)) = every (finds db env file_id) (q ∷ qs)
selects db env file_id (except qs es) =
    every (finds db env file_id) qs && not (every (finds db env file_id) es)
selects db env file_id nothing = false

-- The file has a tag of the group at the end, if that group has tags.
abbrev pub in_group : Db → ℕ → List Text → Bool
in_group db file_id [] = true
in_group db file_id (g ∷ groups) = tagged_in db file_id (g ∷ groups)

-- The file has all positive tags, and one of the group; it lacks one of the negated tags, if there
-- are any. Without positive tags there must be a group and no negation.
abbrev pub asked_for : Db → ℕ → List Text → List Text → List Text → Bool
asked_for db file_id [] [] [] = false
asked_for db file_id [] (g ∷ groups) [] = in_group db file_id (g ∷ groups)
asked_for db file_id [] groups (e ∷ excepts) = false
asked_for db file_id (i ∷ intersects) groups [] =
    every (tagged db file_id) (i ∷ intersects) && in_group db file_id groups
asked_for db file_id (i ∷ intersects) groups (e ∷ excepts) =
    every (tagged db file_id) (i ∷ intersects)
    && in_group db file_id groups
    && not (every (tagged db file_id) (e ∷ excepts))
