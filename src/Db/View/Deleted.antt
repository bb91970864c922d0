-- ===== src/Db/View/Deleted.antt =====
-- What is found by a key when the rows of another key are deleted.
use supertag.Base.{
  ℕ, ◌≡◌, refl, Bool, false, ◌&&◌, List, [], ◌∷◌, map, none, All, mem, find, select, delete, ◌==◌,
  ==_iff, Eq, nat_eq, pair_eq, arith, Bool-cases, inl, inr, if◌then◌else◌,
}
use supertag.Base.Unique
use supertag.Base.Unique.{has_key}
use supertag.Db.Link.{link_key}
use supertag.Db.Store.{FileTagRow}

module _ {A K : Type 0} ⦃e : Eq K⦄ (id : A → ℕ) (key : A → K) (k l : K) where
  pub find-delete :
      (rows : List A)
      → find (has_key id key k) (delete (has_key id key l) rows)
        ≡ (if e.beq k l then none else find (has_key id key k) rows)
  unfolding find delete
  find-delete [] = ground arith
  find-delete (r ∷ rows) =
      ground (arith, find-delete rows, e.beq_iff (key r) k, e.beq_iff (key r) l, e.beq_iff k l)

  -- The id of the one is not among those of the other.
  pub stays :
      (rows : List A) (i : ℕ)
      → All (Unique.Agrees id key k i) rows
      → e.beq k l ≡ false
      → mem i (map id (select (has_key id key l) rows)) ≡ false
  unfolding mem select
  stays [] i a h = refl
  stays (r ∷ rows) i (ar, a) h =
      ground (arith, stays rows i a h, ar, e.beq_iff (key r) k, e.beq_iff (key r) l, e.beq_iff k l)

-- A link that no deleted row has is left.
pub mem-apart :
    (p : FileTagRow → Bool) (k : ℕ × ℕ) (links : List FileTagRow)
    → ((r : FileTagRow) → link_key r ≡ k → p r ≡ false)
    → mem k (map link_key (delete p links)) ≡ mem k (map link_key links)
unfolding delete mem
mem-apart p k [] h = refl
mem-apart p k (r ∷ links) h = elim (Bool-cases (r.file_id == k.0 && r.tag_id == k.1)) [
  | inl e ↦
      let same : link_key r ≡ k = ground (arith, ==_iff r.file_id k.0, ==_iff r.tag_id k.1) in
      rw (h r same, e) refl
  | inr e ↦ ground (arith, mem-apart p k links h)
]
