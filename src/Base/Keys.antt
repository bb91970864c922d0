-- ===== src/Base/Keys.antt =====
-- Equality tests as an interface, and keys in lists: membership, absence of repetitions, counts.
use Prim.Native.Nat.{ℕ, ◌+◌}
use mathlib.Core.Path.{◌≡◌, refl}
use mathlib.Core.Logic.{◌↔◌}
use mathlib.Core.List.{List, [], ◌∷◌, ◌++◌}
use mathlib.Core.Bool.{Bool, true, false, ◌&&◌, ◌||◌}
use native.Mathlib.Omega.{arith}
use supertag.Base.Tests.{◌==◌, ==_iff, if◌then◌else◌}
use supertag.Base.Lists.{All}
use supertag.Base.Chars.{Text, text_eq, text_eq_iff}

pub record Eq {ℓ} (A : Type ℓ) : Type ℓ where
  pub beq : A → A → Bool
  pub beq_iff : (a b : A) → (beq a b ≡ true) ↔ (a ≡ b)

instance abbrev pub nat_eq : Eq ℕ
nat_eq = record { beq = ◌==◌; beq_iff = ==_iff }

instance abbrev pub chars_eq : Eq Text
chars_eq = record { beq = text_eq; beq_iff = text_eq_iff }

pub pair_beq_iff {ℓ κ} :
    {A : Type ℓ} {B : Type κ} ⦃e : Eq A⦄ ⦃f : Eq B⦄ (p q : A × B)
    → ((e.beq p.0 q.0 && f.beq p.1 q.1) ≡ true) ↔ (p ≡ q)
pair_beq_iff ⦃e⦄ ⦃f⦄ (a, b) (c, d) =
    (ground (arith, e.beq_iff a c, f.beq_iff b d), ground (arith, e.beq_iff a c, f.beq_iff b d))

instance abbrev pub pair_eq {ℓ κ} : {A : Type ℓ} {B : Type κ} ⦃e : Eq A⦄ ⦃f : Eq B⦄ → Eq (A × B)
pair_eq ⦃e⦄ ⦃f⦄ = record { beq = λ p q. e.beq p.0 q.0 && f.beq p.1 q.1; beq_iff = pair_beq_iff }

module _ {ℓ} {A : Type ℓ} ⦃e : Eq A⦄ where
  unfoldable pub mem : A → List A → Bool
  mem a [] = false
  mem a (x ∷ xs) = e.beq x a || mem a xs

  unfoldable pub count : A → List A → ℕ
  count a [] = 0
  count a (x ∷ xs) = (if e.beq x a then 1 else 0) + count a xs

  pub beq_refl : (a : A) → e.beq a a ≡ true
  beq_refl a = (e.beq_iff a a).1 refl

  pub mem-append : (a : A) (xs ys : List A) → mem a (xs ++ ys) ≡ (mem a xs || mem a ys)
  unfolding mem
  mem-append a [] ys = refl
  mem-append a (x ∷ xs) ys = ground (arith, mem-append a xs ys)

  pub mem-append_one : (a : A) (xs : List A) → mem a (xs ++ a ∷ []) ≡ true
  unfolding mem
  mem-append_one a [] = ground (arith, beq_refl a)
  mem-append_one a (x ∷ xs) = ground (arith, mem-append_one a xs)

  pub count-append : (a : A) (xs ys : List A) → count a (xs ++ ys) ≡ count a xs + count a ys
  unfolding count
  count-append a [] ys = omega arith
  count-append a (x ∷ xs) ys = omega (arith, count-append a xs ys)

  pub count_of_not-mem : (a : A) (xs : List A) → mem a xs ≡ false → count a xs ≡ 0
  unfolding mem count
  count_of_not-mem a [] h = refl
  count_of_not-mem a (x ∷ xs) h = ground (arith, count_of_not-mem a xs)

  pub All-ne : (a : A) (xs : List A) → mem a xs ≡ false → All (λ x. e.beq x a ≡ false) xs
  unfolding mem
  All-ne a [] h = tt
  All-ne a (x ∷ xs) h = (ground arith, All-ne a xs (ground arith))

module _ {ℓ} {A : Type ℓ} ⦃e : Eq A⦄ where
  -- No element stands twice in the list.
  abbrev pub Distinct : List A → Type 0
  Distinct [] = Unit
  Distinct (x ∷ xs) = (mem x xs ≡ false) × Distinct xs

module _ {ℓ} {A : Type ℓ} ⦃e : Eq A⦄ where
  pub beq_sym : (a b : A) → e.beq a b ≡ e.beq b a
  beq_sym a b = ground (arith, e.beq_iff a b, e.beq_iff b a)

  pub Distinct-append_one :
      (xs : List A) (a : A) → Distinct xs → mem a xs ≡ false → Distinct (xs ++ a ∷ [])
  unfolding mem
  Distinct-append_one [] a d h = (refl, tt)
  Distinct-append_one (x ∷ xs) a (hx, d) h = (
    ground (arith, mem-append x xs (a ∷ []), beq_sym a x),
    Distinct-append_one xs a d (ground arith),
  )
