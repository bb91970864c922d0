-- ===== src/Base/Unique.antt =====
-- A table whose rows have distinct ids and distinct keys: a key selects the row of one id.
use mathlib.Core.Path.{subst}
use supertag.Base.Keys.{Eq, nat_eq, mem, Distinct, All-ne}
use supertag.Base.Lists.{All, All-map₂, All-unmap}
use supertag.Base.Tables.{find, update}
use supertag.Base.Tests.{◌==◌, ==_iff, Bool-cases}
use Prim.Native.Nat.{ℕ}
use mathlib.Core.Bool.{Bool, true, false, ◌&&◌}
use mathlib.Core.List.{List, [], ◌∷◌, ◌++◌, map}
use mathlib.Core.Logic.{inl, inr}
use mathlib.Core.Option.{Option, none, some}
use mathlib.Core.Path.{◌≡◌, refl, sym, ap, ◌∙◌}
use native.Mathlib.Omega.{arith}

abbrev pub is_some {ℓ} : {A : Type ℓ} → Option A → Bool
is_some none = false
is_some (some _) = true

ne_of_mem : (a b : ℕ) (ids : List ℕ) → mem a ids ≡ false → mem b ids ≡ true → (a == b) ≡ false
ne_of_mem a b ids h k = elim (Bool-cases (a == b)) [
  | inl e ↦ absurd (cc (ap (λ x. mem x ids) ((==_iff a b).0 e)))
  | inr e ↦ e
]

module _ {ℓ κ} {A : Type ℓ} {K : Type κ} ⦃e : Eq K⦄ (id : A → ℕ) (key : A → K) where
  abbrev pub has_key : K → A → Bool
  has_key k r = e.beq (key r) k

  -- The id of the first row that is selected.
  abbrev pub id_found : Option A → Option ℕ
  id_found none = none
  id_found (some r) = some (id r)

  -- A row that is found stands in the table.
  pub find-mem :
      (rows : List A) (k : K) (r : A)
      → find (has_key k) rows ≡ some r
      → mem (id r) (map id rows) ≡ true
  unfolding find mem
  find-mem [] k r h = absurd (cc)
  find-mem (s ∷ rows) k r h = ground (arith, find-mem rows k r, ==_iff (id s) (id r))

  pub find_key : (rows : List A) (k : K) (r : A) → find (has_key k) rows ≡ some r → key r ≡ k
  unfolding find
  find_key [] k r h = absurd (cc)
  find_key (s ∷ rows) k r h = ground (arith, find_key rows k r, e.beq_iff (key s) k)

  -- A key that no row has is not among the keys.
  pub find-none→not-mem :
      (rows : List A) (k : K) → find (has_key k) rows ≡ none → mem k (map key rows) ≡ false
  unfolding find mem
  find-none→not-mem [] k h = refl
  find-none→not-mem (s ∷ rows) k h = ground (arith, find-none→not-mem rows k)

  pub find-append_one :
      (rows : List A) (k : K) (r : A)
      → find (has_key k) rows ≡ none
      → key r ≡ k
      → find (has_key k) (rows ++ r ∷ []) ≡ some r
  unfolding find
  find-append_one [] k r h q = ground (arith, e.beq_iff (key r) k)
  find-append_one (s ∷ rows) k r h q = ground (arith, find-append_one rows k r)

  -- An update of other columns leaves the id of every key.
  pub find-update :
      (p : A → Bool) (f : A → A) (rows : List A) (k : K)
      → ((r : A) → id (f r) ≡ id r)
      → ((r : A) → key (f r) ≡ key r)
      → id_found (find (has_key k) (update p f rows)) ≡ id_found (find (has_key k) rows)
  unfolding find update
  find-update p f [] k i n = refl
  find-update p f (r ∷ rows) k i n = ground (arith, i r, n r, find-update p f rows k i n)

  -- The row has the key exactly if it has the id.
  abbrev pub Agrees : K → ℕ → A → Type 0
  Agrees k i r = has_key k r ≡ (id r == i)

  others_agree :
      (rows : List A) (k : K) (i : ℕ)
      → mem i (map id rows) ≡ false
      → mem k (map key rows) ≡ false
      → All (Agrees k i) rows
  others_agree rows k i absent unused =
      All-map₂ (λ r. (id r == i) ≡ false) (λ r. has_key k r ≡ false) (Agrees k i)
        (λ r p q. rw (p, q)) rows (All-unmap (λ x. (x == i) ≡ false) id rows (All-ne i _ absent))
        (All-unmap (λ x. e.beq x k ≡ false) key rows (All-ne k _ unused))

  pub keys_agree :
      (rows : List A) (k : K) (r : A)
      → Distinct (map id rows)
      → Distinct (map key rows)
      → find (has_key k) rows ≡ some r
      → All (Agrees k (id r)) rows
  unfolding find
  keys_agree [] k r i n h = tt
  keys_agree (s ∷ rows) k r (si, i) (sn, n) h = elim (Bool-cases (has_key k s)) [
    | inl q ↦
        let same : s ≡ r = ground arith in
        let keyed : key s ≡ k = (e.beq_iff _ _).0 q in
        (
          q ∙ sym ((==_iff (id s) (id r)).1 (ap id same)),
          subst (λ (x : A). All (Agrees k (id x)) rows) same
              (others_agree rows k (id s) si (rw keyed at sn)),
        )
    | inr q ↦
        let h' : find (has_key k) rows ≡ some r = ground arith in
        (
          q ∙ sym (ne_of_mem (id s) (id r) (map id rows) si (find-mem rows k r h')),
          keys_agree rows k r i n h',
        )
  ]

  -- A search for an id and the key together succeeds at the id of that key alone.
  find_both :
      (rows : List A) (k : K) (i x : ℕ)
      → All (Agrees k i) rows
      → is_some (find (λ r. id r == x && has_key k r) rows) ≡ ((x == i) && mem x (map id rows))
  unfolding find mem
  find_both [] k i x h = ground arith
  find_both (r ∷ rows) k i x (hr, h) = ground (arith, find_both rows k i x h, ==_iff (id r) i)

  pub find_both_agree :
      (rows : List A) (k : K) (r : A) (x : ℕ)
      → Distinct (map id rows)
      → Distinct (map key rows)
      → find (has_key k) rows ≡ some r
      → is_some (find (λ s. id s == x && has_key k s) rows) ≡ (x == id r)
  find_both_agree rows k r x i n h =
      find_both rows k (id r) x (keys_agree rows k r i n h)
      ∙ only_at (id r) x (mem x (map id rows))
          (λ q. ap (λ y. mem y (map id rows)) q ∙ find-mem rows k r h)
    where
      only_at : (i x : ℕ) (b : Bool) → (x ≡ i → b ≡ true) → ((x == i) && b) ≡ (x == i)
      only_at i x b q = elim (Bool-cases (x == i)) [
        | inl p ↦ rw (p, q ((==_iff x i).0 p))
        | inr p ↦ rw p
      ]
