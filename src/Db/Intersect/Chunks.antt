-- ===== src/Db/Intersect/Chunks.antt =====
-- `chunks` of a slice.
use supertag.Base.{
  ℕ, zero, suc, ◌≤◌, ◌<◌, ◌≡◌, refl, ap, ◌∙◌, List, [], ◌∷◌, ◌++◌, length, take, drop,
  take-append-drop, length-drop, arith,
}

module _ {ℓ} {A : Type ℓ} where
  -- Every round takes at least one element, so as many rounds as elements are enough.
  chunks_loop : ℕ → ℕ → List A → List (List A)
  chunks_loop zero n xs = []
  chunks_loop (suc fuel) n [] = []
  chunks_loop (suc fuel) n (x ∷ xs) = take n (x ∷ xs) ∷ chunks_loop fuel n (drop n (x ∷ xs))

  unfoldable pub chunks : ℕ → List A → List (List A)
  unfolding chunks_loop
  chunks n xs = chunks_loop (length xs) n xs

  abbrev pub concat : List (List A) → List A
  concat [] = []
  concat (c ∷ cs) = c ++ concat cs

  concat-chunks_loop :
      (fuel n : ℕ) (xs : List A) → 0 < n → length xs ≤ fuel → concat (chunks_loop fuel n xs) ≡ xs
  unfolding chunks_loop
  concat-chunks_loop zero n [] h k = refl
  concat-chunks_loop zero n (x ∷ xs) h k = absurd (omega arith)
  concat-chunks_loop (suc fuel) n [] h k = refl
  concat-chunks_loop (suc fuel) n (x ∷ xs) h k =
      ap (◌++◌ (take n (x ∷ xs)))
        (concat-chunks_loop fuel n (drop n (x ∷ xs)) h (omega (arith, length-drop n (x ∷ xs))))
      ∙ take-append-drop n (x ∷ xs)

  -- The chunks together are the whole.
  pub concat-chunks : (n : ℕ) (xs : List A) → 0 < n → concat (chunks n xs) ≡ xs
  unfolding chunks
  concat-chunks n xs h = concat-chunks_loop (length xs) n xs h (omega arith)
