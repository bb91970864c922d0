-- ===== src/Names/Slices.antt =====
-- `read_from_slice` fills a prefix of the destination from the source.
use supertag.Base.{
  ℕ, ◌-◌, min, ◌≡◌, refl, List, [], ◌∷◌, ◌++◌, arith, length, take, drop, length-append,
  length-take, length-drop, take-append, Bool-cases, inl, inr, ltb,
}
use supertag.Names.{read_from_slice}

module _ {ℓ} {A : Type ℓ} where
  drop-append : (xs ys : List A) → drop (length xs) (xs ++ ys) ≡ ys
  drop-append [] ys = refl
  drop-append (x ∷ xs) ys = drop-append xs ys

  take-append_of : (n : ℕ) (xs ys : List A) → length xs ≡ n → take n (xs ++ ys) ≡ xs
  take-append_of n xs ys h = rw (← h) (take-append xs ys)

  drop-append_of : (n : ℕ) (xs ys : List A) → length xs ≡ n → drop n (xs ++ ys) ≡ ys
  drop-append_of n xs ys h = rw (← h) (drop-append xs ys)

-- The count is what the source still holds behind the offset, at most the destination's length;
-- that many items are copied, the rest of the destination stays, and its length is kept.
pub read_from_slice_lem {ℓ} :
    {A : Type ℓ} (src dst : List A) (offset : ℕ)
    → let (filled, read) = read_from_slice src dst offset in
      (read ≡ min (length src - offset) (length dst))
      × (take read filled ≡ take read (drop offset src))
      × (drop read filled ≡ drop read dst)
      × (length filled ≡ length dst)
unfolding read_from_slice
read_from_slice_lem src dst offset = elim (Bool-cases (ltb (length src) offset)) [
  | inl beyond ↦ rw beyond (ground arith, refl, refl, refl)
  | inr within ↦
      let n = min (length src - offset) (length dst) in
      let copied = take n (drop offset src) in
      let e : length copied ≡ n =
        omega (arith, length-take n (drop offset src), length-drop offset src) in
      rw within (
        refl,
        take-append_of n copied (drop n dst) e,
        drop-append_of n copied (drop n dst) e,
        omega (arith, length-append copied (drop n dst), length-drop n dst),
      )
]
