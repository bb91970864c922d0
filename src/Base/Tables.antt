-- ===== src/Base/Tables.antt =====
-- Tables as lists of rows: what `SELECT`, `UPDATE`, `INSERT` and `DELETE` do with them.
use mathlib.Core.Path.{◌≡◌, refl, ap}
use mathlib.Core.List.{List, [], ◌∷◌, ◌++◌, map}
use mathlib.Core.Option.{Option, none, some}
use mathlib.Core.Bool.{Bool}
use native.Mathlib.Omega.{arith}
use supertag.Base.Tests.{if◌then◌else◌}

module _ {ℓ} {A : Type ℓ} where
  -- `SELECT … WHERE p`, all rows and the first one.
  unfoldable pub select : (A → Bool) → List A → List A
  select p [] = []
  select p (r ∷ rows) = if p r then r ∷ select p rows else select p rows

  unfoldable pub find : (A → Bool) → List A → Option A
  find p [] = none
  find p (r ∷ rows) = if p r then some r else find p rows

  -- `UPDATE … SET f WHERE p`
  unfoldable pub update : (A → Bool) → (A → A) → List A → List A
  update p f [] = []
  update p f (r ∷ rows) = (if p r then f r else r) ∷ update p f rows

  -- `DELETE … WHERE p`
  unfoldable pub delete : (A → Bool) → List A → List A
  delete p [] = []
  delete p (r ∷ rows) = if p r then delete p rows else r ∷ delete p rows

module _ {ℓ κ} {A : Type ℓ} {B : Type κ} where
  -- A column that the update does not set stays.
  pub map-update :
      (key : A → B) (p : A → Bool) (f : A → A) (rows : List A)
      → ((r : A) → key (f r) ≡ key r)
      → map key (update p f rows) ≡ map key rows
  unfolding update
  map-update key p f [] h = refl
  map-update key p f (r ∷ rows) h = ground (arith, h r, map-update key p f rows h)

  pub map-append_one :
      (key : A → B) (rows : List A) (r : A) → map key (rows ++ r ∷ []) ≡ map key rows ++ key r ∷ []
  map-append_one key [] r = refl
  map-append_one key (x ∷ rows) r = ap (◌∷◌ (key x)) (map-append_one key rows r)
