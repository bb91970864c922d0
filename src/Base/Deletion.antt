-- ===== src/Base/Deletion.antt =====
-- What stays true of a column when rows are deleted.
use supertag.Base.Keys.{Eq, nat_eq, mem, count, Distinct, All-ne}
use supertag.Base.Lists.{All, All-map₂}
use supertag.Base.Tables.{select, delete}
use supertag.Base.Tests.{◌==◌, ==_iff, Bool-cases}
use Prim.Native.Nat.{ℕ, ◌+◌}
use mathlib.Core.Bool.{Bool, false, ◌||◌}
use mathlib.Core.List.{List, [], ◌∷◌, map}
use mathlib.Core.Logic.{inl, inr}
use mathlib.Core.Path.{◌≡◌, refl}
use native.Mathlib.Omega.{arith}

module _ {ℓ κ} {A : Type ℓ} {B : Type κ} (key : A → B) (p : A → Bool) where
  pub All-delete :
      (P : B → Type 0) (rows : List A) → All P (map key rows) → All P (map key (delete p rows))
  unfolding delete
  All-delete P [] h = tt
  All-delete P (r ∷ rows) (hr, h) = elim (Bool-cases (p r)) [
    | inl q ↦ rw q (All-delete P rows h)
    | inr q ↦ rw q (hr, All-delete P rows h)
  ]

  module _ ⦃e : Eq B⦄ where
    pub mem-delete :
        (b : B) (rows : List A)
        → mem b (map key rows) ≡ false
        → mem b (map key (delete p rows)) ≡ false
    unfolding delete mem
    mem-delete b [] h = refl
    mem-delete b (r ∷ rows) h = ground (arith, mem-delete b rows)

    pub Distinct-delete :
        (rows : List A) → Distinct (map key rows) → Distinct (map key (delete p rows))
    unfolding delete
    Distinct-delete [] h = tt
    Distinct-delete (r ∷ rows) (hr, h) = elim (Bool-cases (p r)) [
      | inl q ↦ rw q (Distinct-delete rows h)
      | inr q ↦ rw q (mem-delete (key r) rows hr, Distinct-delete rows h)
    ]

    pub count-delete :
        (b : B) (rows : List A)
        → count b (map key (select p rows)) + count b (map key (delete p rows))
          ≡ count b (map key rows)
    unfolding delete select count
    count-delete b [] = refl
    count-delete b (r ∷ rows) = ground (arith, count-delete b rows)

module _ {ℓ} {A : Type ℓ} (id : A → ℕ) (p : A → Bool) where
  -- Every id of a table is one of a row that is selected or of one that is not.
  pub mem-select-delete :
      (i : ℕ) (rows : List A)
      → mem i (map id rows) ≡ (mem i (map id (select p rows)) || mem i (map id (delete p rows)))
  unfolding mem select delete
  mem-select-delete i [] = refl
  mem-select-delete i (r ∷ rows) = ground (arith, mem-select-delete i rows)

  not-mem-select :
      (i : ℕ) (rows : List A) → mem i (map id rows) ≡ false → mem i (map id (select p rows)) ≡ false
  not-mem-select i rows h = ground (arith, mem-select-delete i rows)

  not-mem-delete :
      (i : ℕ) (rows : List A) → mem i (map id rows) ≡ false → mem i (map id (delete p rows)) ≡ false
  not-mem-delete i rows h = ground (arith, mem-select-delete i rows)

  -- Where ids do not repeat, no row that stays has the id of one that goes.
  pub apart-delete :
      (rows : List A)
      → Distinct (map id rows)
      → All (λ i. mem i (map id (select p rows)) ≡ false) (map id (delete p rows))
  unfolding select delete mem
  apart-delete [] d = tt
  apart-delete (r ∷ rows) (h, d) = elim (Bool-cases (p r)) [
    | inl e ↦ rw e (
        All-map₂ (λ i. mem i (map id (select p rows)) ≡ false) (λ i. (i == id r) ≡ false)
          (λ i. mem i (id r ∷ map id (select p rows)) ≡ false)
          (λ i a b. ground (arith, ==_iff (id r) i, ==_iff i (id r))) (map id (delete p rows))
          (apart-delete rows d) (All-ne (id r) _ (not-mem-delete (id r) rows h)))
    | inr e ↦ rw e (not-mem-select (id r) rows h, apart-delete rows d)
  ]
