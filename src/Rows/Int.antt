-- ===== src/Rows/Int.antt =====
-- SQLite's signed integers, over the native numbers.
use supertag.Base.{ℕ, ◌+◌, ◌-◌, ◌≡◌, refl, arith, leb, if◌then◌else◌}

-- `negsuc n` is -(n + 1).
pub data ℤ : Type 0 where
  pos : ℕ → ℤ
  negsuc : ℕ → ℤ

-- a - b, as an integer.
abbrev pub sub_ℕ : ℕ → ℕ → ℤ
sub_ℕ a b = if leb b a then pos (a - b) else negsuc (b - a - 1)

-- `x + n` and `x - n`, for a count `n`.
infixl 65 ◌+ℤ◌ ◌-ℤ◌
unfoldable pub ◌+ℤ◌ : ℤ → ℕ → ℤ
pos a +ℤ n = pos (a + n)
negsuc a +ℤ n = sub_ℕ n (a + 1)

unfoldable pub ◌-ℤ◌ : ℤ → ℕ → ℤ
pos a -ℤ n = sub_ℕ a n
negsuc a -ℤ n = negsuc (a + n)

pub pos-add : (a n : ℕ) → pos a +ℤ n ≡ pos (a + n)
unfolding ◌+ℤ◌
pos-add a n = refl

pub pos-sub : (a n : ℕ) → pos (a + n) -ℤ n ≡ pos a
unfolding ◌-ℤ◌
pos-sub a n = ground arith
