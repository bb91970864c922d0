-- ===== src/Db/Query/Numbering.antt =====
-- Evaluated with its parameters, the subquery selects the files that the path asks for.
use supertag.Base.{
  ℕ, suc, ◌+◌, ◌-◌, ◌≡◌, refl, ap, ◌∙◌, Bool, true, false, not, ◌&&◌, List, [], ◌∷◌, ◌++◌, some,
  Text, length, get_elem?, chars_eq, arith, append_assoc, length-append,
}
use supertag.Db.Query
use supertag.Db.Query.Meaning.{
  tagged, tagged_in, every, bound, bound_all, finds, selects, in_group, asked_for,
}
use supertag.Db.Query.{
  Subquery, tag_name_is, make_params, intersects_of, excepts_of, groups_of, single_subqueries,
  assemble, intersection_subquery,
}
use supertag.Db.Store.{Db}
use supertag.Tags.Types.{TagType}

get_elem?-append :
    (before : List Text) (x : Text) (rest : List Text)
    → get_elem? (before ++ x ∷ rest) (length before) ≡ some x
get_elem?-append [] x rest = refl
get_elem?-append (b ∷ before) x rest = get_elem?-append before x rest

-- The parameter behind `offset` others is bound to the text behind them.
bound-append :
    (before : List Text) (x : Text) (rest : List Text) (offset i : ℕ)
    → offset ≡ length before
    → i ≡ offset + 1
    → bound (before ++ x ∷ rest) i ≡ some x
bound-append before x rest offset i h k =
    let e : i - 1 ≡ length before = omega arith in
    ap (get_elem? (before ++ x ∷ rest)) e ∙ get_elem?-append before x rest

shifted :
    (before : List Text) (x : Text) (rest : List Text)
    → before ++ x ∷ rest ≡ (before ++ x ∷ []) ++ rest
shifted [] x rest = refl
shifted (b ∷ before) x rest = ap (◌∷◌ b) (shifted before x rest)

longer :
    (before : List Text) (x : Text) (offset i : ℕ)
    → offset ≡ length before
    → i ≡ offset + 1
    → i ≡ length (before ++ x ∷ [])
longer before x offset i h k = omega (arith, length-append before (x ∷ []))

and_cong : (a a' b b' : Bool) → a ≡ a' → b ≡ b' → (a && b) ≡ (a' && b')
and_cong a a' b b' p q = rw (p, q) refl

finds_one :
    (db : Db) (env : List Text) (file_id i : ℕ) (x : Text)
    → bound env i ≡ some x
    → finds db env file_id (tag_name_is i) ≡ tagged db file_id x
finds_one db env file_id i x h = rw (h, finds) refl

bound_all_one :
    (env : List Text) (i : ℕ) (is : List ℕ) (x : Text)
    → bound env i ≡ some x
    → bound_all env (i ∷ is) ≡ x ∷ bound_all env is
bound_all_one env i is x h = rw (h, bound_all) refl

-- The parameters of single names are bound to those names.
every-single :
    (db : Db) (file_id : ℕ) (env names before rest : List Text) (offset : ℕ)
    → env ≡ before ++ (names ++ rest)
    → offset ≡ length before
    → every (finds db env file_id) (single_subqueries (length names) offset)
      ≡ every (tagged db file_id) names
unfolding single_subqueries
every-single db file_id env [] before rest offset e h = refl
every-single db file_id env (x ∷ names) before rest offset e h =
    and_cong _ _ _ _
      (finds_one db env file_id (offset + 1) x (
        ap (λ v. bound v (offset + 1)) e
        ∙ bound-append before x (names ++ rest) offset (offset + 1) h refl))
      (every-single db file_id env names (before ++ x ∷ []) rest (offset + 1)
        (e ∙ shifted before x (names ++ rest)) (longer before x offset (offset + 1) h refl))

bound-make_params :
    (env names before rest : List Text) (offset : ℕ)
    → env ≡ before ++ (names ++ rest)
    → offset ≡ length before
    → bound_all env (make_params (length names) offset) ≡ names
unfolding make_params
bound-make_params env [] before rest offset e h = refl
bound-make_params env (x ∷ names) before rest offset e h =
    bound_all_one env (suc offset) _ x (
      ap (λ v. bound v (suc offset)) e
      ∙ bound-append before x (names ++ rest) offset (suc offset) h (omega arith))
    ∙ ap (◌∷◌ x) (
        bound-make_params env names (before ++ x ∷ []) rest (suc offset)
          (e ∙ shifted before x (names ++ rest))
          (longer before x offset (suc offset) h (omega arith)))

and-true : (b : Bool) → (b && true) ≡ b
and-true true = refl
and-true false = refl

every-append :
    (p : Subquery → Bool) (xs ys : List Subquery) → every p (xs ++ ys) ≡ (every p xs && every p ys)
every-append p [] ys = refl
every-append p (x ∷ xs) ys = ground (arith, every-append p xs ys)

-- The group's subquery, where the group has tags.
every-group :
    (db : Db) (file_id : ℕ) (env groups before rest : List Text) (offset : ℕ)
    → env ≡ before ++ (groups ++ rest)
    → offset ≡ length before
    → every (finds db env file_id) (Query.group_subqueries groups offset)
      ≡ in_group db file_id groups
unfolding Query.group_subqueries
every-group db file_id env [] before rest offset e h = refl
every-group db file_id env (g ∷ groups) before rest offset e h =
    rw (bound-make_params env (g ∷ groups) before rest offset e h)
      (and-true (tagged_in db file_id (g ∷ groups)))

-- The assembled query finds what is asked for, if its parts do.
selects-assemble :
    (db : Db) (env : List Text) (file_id : ℕ) (intersects groups excepts : List Text) (a b c : ℕ)
    → every (finds db env file_id) (single_subqueries (length intersects) a)
      ≡ every (tagged db file_id) intersects
    → every (finds db env file_id) (Query.group_subqueries groups b) ≡ in_group db file_id groups
    → every (finds db env file_id) (single_subqueries (length excepts) c)
      ≡ every (tagged db file_id) excepts
    → selects db env file_id (
        assemble
          (single_subqueries (length intersects) a)
          (Query.group_subqueries groups b)
          (single_subqueries (length excepts) c))
      ≡ asked_for db file_id intersects groups excepts
unfolding assemble single_subqueries Query.group_subqueries
selects-assemble db env file_id [] [] [] a b c p q r = refl
selects-assemble db env file_id [] (g ∷ groups) [] a b c p q r = q
selects-assemble db env file_id [] [] (e ∷ excepts) a b c p q r = refl
selects-assemble db env file_id [] (g ∷ groups) (e ∷ excepts) a b c p q r = refl
selects-assemble db env file_id (i ∷ intersects) groups [] a b c p q r =
    every-append (finds db env file_id) (single_subqueries (length (i ∷ intersects)) a) _
    ∙ rw (p, q) refl
selects-assemble db env file_id (i ∷ intersects) groups (e ∷ excepts) a b c p q r =
    and_cong _ _ _ _
      (every-append (finds db env file_id) (single_subqueries (length (i ∷ intersects)) a) _
        ∙ and_cong _ _ _ _ p q)
      (ap not r)

-- The parameters of the subquery are numbered right: where those it returns are bound behind
-- `offset` others, it finds exactly the files that the path asks for. Those have every positive tag,
-- a tag of the group if the path ends in one that has tags, and lack one of the negated tags if there
-- are any; a path of negations without a positive tag, or of nothing at all, finds no file.
pub intersection_subquery-asked_for :
    (db : Db) (tags : List TagType) (before after : List Text) (file_id : ℕ)
    → let (query, params) = intersection_subquery db tags (length before) in
      selects db (before ++ params ++ after) file_id query
      ≡ asked_for db file_id (intersects_of tags) (groups_of db tags) (excepts_of tags)
unfolding intersection_subquery
intersection_subquery-asked_for db tags before after file_id =
    let I = intersects_of tags in
    let G = groups_of db tags in
    let E = excepts_of tags in
    let env = before ++ (I ++ G ++ E) ++ after in
    selects-assemble db env file_id I G E (length before) (length before + length I)
      (length before + length I + length G)
      (every-single db file_id env I before (G ++ (E ++ after)) (length before) (simp append_assoc)
        refl)
      (every-group db file_id env G (before ++ I) (E ++ after) (length before + length I)
        (simp append_assoc) (omega (arith, length-append before I)))
      (every-single db file_id env E (before ++ I ++ G) after (length before + length I + length G)
        (simp append_assoc) (omega (arith, length-append before I, length-append (before ++ I) G)))
