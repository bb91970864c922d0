-- ===== src/Base/Order.antt =====
-- `ORDER BY` on a column of text: bytes of UTF-8 compare as code points do.
use mathlib.Core.Bool.{Bool, true, false}
use mathlib.Core.Logic.{inl, inr}
use mathlib.Core.List.{List, [], ◌∷◌, map}
use mathlib.Core.Path.{◌≡◌, refl, ◌∙◌}
use native.Mathlib.Omega.{arith}
use supertag.Base.Chars.{Text}
use supertag.Base.Keys.{Eq, mem}
use supertag.Base.Tests.{Bool-cases, ltb, if◌then◌else◌}

abbrev pub text_leb : Text → Text → Bool
text_leb [] t = true
text_leb (c ∷ s) [] = false
text_leb (c ∷ s) (d ∷ t) =
    let rest = text_leb s t in if ltb c d then true else if ltb d c then false else rest

-- No text is followed by one that comes before it.
abbrev pub IsOrdered : List Text → Type 0
IsOrdered [] = Unit
IsOrdered (s ∷ []) = Unit
IsOrdered (s ∷ t ∷ rest) = (text_leb s t ≡ true) × IsOrdered (t ∷ rest)

text_leb-total : (s t : Text) → text_leb s t ≡ false → text_leb t s ≡ true
text_leb-total [] t h = absurd (cc)
text_leb-total (c ∷ s) [] h = refl
text_leb-total (c ∷ s) (d ∷ t) h = ground (arith, text_leb-total s t)

module _ {ℓ} {A : Type ℓ} (column : A → Text) where
  unfoldable pub insert_by : A → List A → List A
  insert_by r [] = r ∷ []
  insert_by r (s ∷ rows) =
      let rest = insert_by r rows in
      if text_leb (column r) (column s) then r ∷ s ∷ rows else s ∷ rest

  -- Rows that tie keep their order.
  unfoldable pub order_by : List A → List A
  order_by [] = []
  order_by (r ∷ rows) = insert_by r (order_by rows)

  insert_by-IsOrdered :
      (r : A) (rows : List A)
      → IsOrdered (map column rows)
      → IsOrdered (map column (insert_by r rows))
  unfolding insert_by
  insert_by-IsOrdered r [] h = tt
  insert_by-IsOrdered r (s ∷ []) h = elim (Bool-cases (text_leb (column r) (column s))) [
    | inl e ↦ rw e (e, tt)
    | inr e ↦ rw e (text_leb-total (column r) (column s) e, tt)
  ]
  insert_by-IsOrdered r (s ∷ t ∷ rows) (hs, h) =
      let rest = insert_by-IsOrdered r (t ∷ rows) h in
      elim (Bool-cases (text_leb (column r) (column s))) [
        | inl e ↦ rw e (e, (hs, h))
        | inr e ↦ elim (Bool-cases (text_leb (column r) (column t))) [
          | inl f ↦ rw (e, f) (text_leb-total (column r) (column s) e, (f, h))
          | inr f ↦ rw (e, f) (hs, rw f at rest)
        ]
      ]

  pub order_by-IsOrdered : (rows : List A) → IsOrdered (map column (order_by rows))
  unfolding order_by
  order_by-IsOrdered [] = tt
  order_by-IsOrdered (r ∷ rows) = insert_by-IsOrdered r (order_by rows) (order_by-IsOrdered rows)

  module _ {κ} {B : Type κ} ⦃e : Eq B⦄ (key : A → B) where
    mem-insert_by :
        (b : B) (r : A) (rows : List A)
        → mem b (map key (insert_by r rows)) ≡ mem b (map key (r ∷ rows))
    unfolding insert_by mem
    mem-insert_by b r [] = refl
    mem-insert_by b r (s ∷ rows) = ground (arith, mem-insert_by b r rows)

    -- The order does not change which rows there are.
    pub mem-order_by :
        (b : B) (rows : List A) → mem b (map key (order_by rows)) ≡ mem b (map key rows)
    unfolding order_by mem
    mem-order_by b [] = refl
    mem-order_by b (r ∷ rows) =
        mem-insert_by b r (order_by rows) ∙ ground (arith, mem-order_by b rows)
