-- ===== src/Settings/Resolve.antt =====
-- A path that handlers make absolute belongs to the collection that is mounted.
use supertag.Base.{
  ◌≡◌, refl, sym, ap, ◌∙◌, Bool, true, false, not, ◌&&◌, List, [], ◌∷◌, ◌++◌, map, none, some, Text,
  length, drop, All, All-map, arith, starts_with, ends_with, text_eq, text_eq_refl, append_assoc,
  append-nil, append-strip_len, strip_len, Bool-cases, inl, inr, if◌then◌else◌,
}
use supertag.Paths.{
  Component, root_dir, cur_dir, parent_dir, normal, as_text, components, pieces, piece, split_from,
}
use supertag.Paths.Joined.{slash, path_join, begins, from_components, join_names}
use supertag.Paths.Split.{IsPart, join-relative, split_from-join, pieces-IsPart}
use supertag.Settings.Collections.{
  Dirs, collection_dir, strip_prefix, mountpoint, abs_mountpoint, confirmed, collection_from_path,
  components-slash,
}
use supertag.Tags.Collection.{join}

starts_with-append :
    (base s : Text) → starts_with base slash ≡ true → starts_with (base ++ s) slash ≡ true
unfolding starts_with
starts_with-append [] s h = absurd (cc)
starts_with-append (x ∷ base) s h = h

nothing_behind : pieces (split_from b'/' [] []) ≡ []
unfolding pieces split_from piece text_eq
nothing_behind = refl

components-slash_end :
    (r s : Text)
    → starts_with (r ++ slash) slash ≡ true
    → components ((r ++ slash) ++ s) ≡ components (r ++ slash) ++ pieces (split_from b'/' [] s)
components-slash_end [] s h = unfold components starts_with split_from pieces piece text_eq in refl
components-slash_end (x ∷ r) s h =
    let starts : starts_with (x ∷ r) slash ≡ true = unfold starts_with in h in
    ap components (append_assoc (x ∷ r) slash s)
    ∙ components-slash (x ∷ r) s starts
    ∙ ap (λ l. l ++ pieces (split_from b'/' [] s))
        (sym (
          components-slash (x ∷ r) [] starts
          ∙ ap (λ l. components (x ∷ r) ++ l) nothing_behind
          ∙ append-nil (components (x ∷ r))))

-- `join` writes the components of the second path behind those of the first.
path_join-components :
    (base s : Text)
    → starts_with base slash ≡ true
    → starts_with s slash ≡ false
    → (components (path_join base s) ≡ components base ++ pieces (split_from b'/' [] s))
      × (starts_with (path_join base s) slash ≡ true)
unfolding path_join starts_with
path_join-components [] s h k = absurd (cc)
path_join-components (x ∷ base) s h k = elim (Bool-cases (ends_with (x ∷ base) slash)) [
  | inr e ↦
      rw (k, e)
        (ap components (append_assoc (x ∷ base) slash s) ∙ components-slash (x ∷ base) s h, h)
  | inl e ↦
      let split = append-strip_len (x ∷ base) slash e in
      rw (k, e)
        (
          ap (λ b. components (b ++ s)) split
              ∙ components-slash_end (strip_len (x ∷ base) slash) s
                  (sym (ap (λ b. starts_with b slash) split) ∙ h)
              ∙ sym (ap (λ b. components b ++ pieces (split_from b'/' [] s)) split),
          h,
        )
]

join_names-join : (parts : List Text) → join_names parts ≡ join b'/' parts
unfolding join_names join
join_names-join [] = refl
join_names-join (s ∷ []) = refl
join_names-join (s ∷ t ∷ rest) =
    append_assoc s slash (join_names (t ∷ rest))
    ∙ ap (λ l. s ++ b'/' ∷ l) (join_names-join (t ∷ rest))

relative : (parts : List Text) → All IsPart parts → starts_with (join b'/' parts) slash ≡ false
relative [] h = unfold starts_with join in refl
relative (s ∷ rest) (p, h) = join-relative s rest p

pieces-join :
    (parts : List Text)
    → All IsPart parts
    → pieces (split_from b'/' [] (join b'/' parts)) ≡ map normal parts
pieces-join [] h = unfold split_from join pieces piece text_eq in refl
pieces-join (s ∷ rest) (p, h) =
    ap pieces (split_from-join b'/' s rest (All-map _ _ (λ t q. q.one_part) (s ∷ rest) (p, h)))
    ∙ pieces-IsPart (s ∷ rest) (p, h)

-- What stands behind a prefix is what is left.
begins-append : (cs ds : List Component) → begins (cs ++ ds) cs ≡ true
begins-append [] ds = refl
begins-append (root_dir ∷ cs) ds = begins-append cs ds
begins-append (cur_dir ∷ cs) ds = begins-append cs ds
begins-append (parent_dir ∷ cs) ds = begins-append cs ds
begins-append (normal s ∷ cs) ds = rw (text_eq_refl s) (begins-append cs ds)

drop-append_all {ℓ} : {A : Type ℓ} (xs ys : List A) → drop (length xs) (xs ++ ys) ≡ ys
drop-append_all [] ys = refl
drop-append_all (x ∷ xs) ys = drop-append_all xs ys

strip_prefix-append :
    (path base : Text) (rest : List Component)
    → components path ≡ components base ++ rest
    → strip_prefix path base ≡ some rest
unfolding strip_prefix
strip_prefix-append path base rest e =
    rw (e, begins-append (components base) rest) (ap some (drop-append_all (components base) rest))

names-as_text : (parts : List Text) → map as_text (map normal parts) ≡ parts
unfolding as_text
names-as_text [] = refl
names-as_text (s ∷ rest) = ap (◌∷◌ s) (names-as_text rest)

from_components-normal : (parts : List Text) → from_components (map normal parts) ≡ join b'/' parts
unfolding from_components as_text
from_components-normal [] = unfold join in refl
from_components-normal (s ∷ rest) =
    ap (λ l. join_names (s ∷ l)) (names-as_text rest) ∙ join_names-join (s ∷ rest)

abs_mountpoint-stripped :
    (base_dir col rel : Text) (stripped : List Component)
    → strip_prefix rel slash ≡ some stripped
    → abs_mountpoint base_dir col rel
      ≡ path_join (mountpoint base_dir col) (from_components stripped)
unfolding abs_mountpoint
abs_mountpoint-stripped base_dir col rel stripped e = rw (e, abs_mountpoint) refl

module _ (base_dir : Text) (h : starts_with base_dir slash ≡ true) (col : Text)
    (c : IsPart col) where
  components-mountpoint :
      (components (mountpoint base_dir col) ≡ components base_dir ++ normal col ∷ [])
      × (starts_with (mountpoint base_dir col) slash ≡ true)
  components-mountpoint =
      let alone : join b'/' (col ∷ []) ≡ col = unfold join in refl in
      let (p, q) =
        path_join-components base_dir col h
          (ap (λ s. starts_with s slash) (sym alone) ∙ relative (col ∷ []) (c, tt)) in
      (
        p
            ∙ ap (λ s. components base_dir ++ pieces (split_from b'/' [] s)) (sym alone)
            ∙ ap (λ l. components base_dir ++ l) (pieces-join (col ∷ []) (c, tt)),
        q,
      )

  components-abs_mountpoint :
      (parts : List Text)
      → All IsPart parts
      → components (abs_mountpoint base_dir col (slash ++ join b'/' parts))
        ≡ components base_dir ++ normal col ∷ map normal parts
  components-abs_mountpoint parts a =
      let (p, q) = components-mountpoint in
      let (r, _) =
        path_join-components (mountpoint base_dir col) (join b'/' parts) q (relative parts a) in
      let here : strip_prefix (slash ++ join b'/' parts) slash ≡ some (map normal parts) =
        strip_prefix-append (slash ++ join b'/' parts) slash (map normal parts) (
          components-slash_end [] (join b'/' parts) (unfold starts_with in refl)
          ∙ ap (λ l. components slash ++ l) (pieces-join parts a)) in
      ap components (abs_mountpoint-stripped base_dir col _ (map normal parts) here)
      ∙ ap (λ l. components (path_join (mountpoint base_dir col) l)) (from_components-normal parts)
      ∙ r
      ∙ ap (λ l. components (mountpoint base_dir col) ++ l) (pieces-join parts a)
      ∙ ap (λ l. l ++ map normal parts) p
      ∙ append_assoc (components base_dir) (normal col ∷ []) (map normal parts)

  -- A path of the kernel that `abs_mountpoint` makes absolute is one of the collection that is
  -- mounted, however deep it is: below an absolute base directory, for a collection whose name is one
  -- part of a path, `collection_from_path` finds that name again, unless it is to confirm the
  -- collection's directory and there is none.
  pub collection_from_path-abs_mountpoint :
      (dirs : Dirs) (exists : Text → Bool) (parts : List Text) (confirm_exists : Bool)
      → All IsPart parts
      → collection_from_path base_dir dirs exists
          (abs_mountpoint base_dir col (slash ++ join b'/' parts))
          confirm_exists
        ≡ (if confirm_exists && not (exists (collection_dir dirs col)) then none else some col)
  unfolding collection_from_path as_text
  collection_from_path-abs_mountpoint dirs exists parts confirm_exists a =
      rw
        (strip_prefix-append (abs_mountpoint base_dir col (slash ++ join b'/' parts)) base_dir
          (normal col ∷ map normal parts) (components-abs_mountpoint parts a))
        (go confirm_exists)
    where
      go :
          (b : Bool)
          → confirmed base_dir dirs exists b (some (as_text (normal col)))
            ≡ (if b && not (exists (collection_dir dirs col)) then none else some col)
      go true = ground arith
      go false = refl
