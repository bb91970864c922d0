-- ===== src/Paths/Split.antt =====
-- The components of parts joined by separators are those parts.
use supertag.Base.{
  ℕ, ◌≡◌, ◌≢◌, refl, ap, ◌∙◌, false, List, [], ◌∷◌, ◌++◌, map, append_assoc, append-nil, arith,
  Text, codes, Lacks, All, All-map, text_eq, text_ne→false, starts_with,
}
use supertag.Paths.{normal, split_from, piece, pieces, first_pieces, components}
use supertag.Tags.Collection.{join}

-- A text that is one component of a path.
pub record IsPart (s : Text) : Type 0 where
  pub nonempty : s ≢ []
  pub one_part : Lacks b'/' s
  pub not_here : s ≢ codes "."
  pub not_parent : s ≢ codes ".."

split_from-Lacks :
    (c : ℕ) (current s : Text) → Lacks c s → split_from c current s ≡ (current ++ s) ∷ []
unfolding split_from
split_from-Lacks c current [] h = rw append-nil
split_from-Lacks c current (x ∷ s) (hx, h) =
    ground (arith, split_from-Lacks c (current ++ x ∷ []) s h, append_assoc current (x ∷ []) s)

split_from-append :
    (c : ℕ) (current s rest : Text)
    → Lacks c s
    → split_from c current (s ++ c ∷ rest) ≡ (current ++ s) ∷ split_from c [] rest
unfolding split_from
split_from-append c current [] rest h = ground (arith, append-nil current)
split_from-append c current (x ∷ s) rest (hx, h) =
    ground
      (arith, split_from-append c (current ++ x ∷ []) s rest h, append_assoc current (x ∷ []) s)

pub split_from-join :
    (c : ℕ) (s : Text) (rest : List Text)
    → All (Lacks c) (s ∷ rest)
    → split_from c [] (join c (s ∷ rest)) ≡ s ∷ rest
unfolding join
split_from-join c s [] (h, _) = split_from-Lacks c [] s h
split_from-join c s (t ∷ rest) (h, hs) =
    split_from-append c [] s (join c (t ∷ rest)) h ∙ ap (◌∷◌ s) (split_from-join c t rest hs)

piece-IsPart : (s : Text) → IsPart s → piece s ≡ normal s ∷ []
unfolding piece
piece-IsPart s p = rw (
  text_ne→false s [] p.nonempty,
  text_ne→false s (codes ".") p.not_here,
  text_ne→false s (codes "..") p.not_parent,
)

pub pieces-IsPart : (parts : List Text) → All IsPart parts → pieces parts ≡ map normal parts
unfolding pieces
pieces-IsPart [] h = refl
pieces-IsPart (s ∷ rest) (p, h) = rw (piece-IsPart s p, pieces-IsPart rest h)

first_pieces-IsPart : (parts : List Text) → All IsPart parts → first_pieces parts ≡ map normal parts
unfolding first_pieces
first_pieces-IsPart [] h = refl
first_pieces-IsPart (s ∷ rest) (p, h) =
    rw (text_ne→false s (codes ".") p.not_here) (pieces-IsPart (s ∷ rest) (p, h))

pub join-relative :
    (s : Text) (rest : List Text)
    → IsPart s
    → starts_with (join b'/' (s ∷ rest)) (codes "/") ≡ false
unfolding join starts_with
join-relative [] rest p = absurd (p.nonempty refl)
join-relative (x ∷ s) [] p = ground (arith, p.one_part)
join-relative (x ∷ s) (t ∷ rest) p = ground (arith, p.one_part)

-- A path that is written from proper parts has exactly these components, all normal.
pub components-join :
    (parts : List Text) → All IsPart parts → components (join b'/' parts) ≡ map normal parts
unfolding components
components-join [] h = unfold join split_from starts_with first_pieces pieces piece text_eq in refl
components-join (s ∷ rest) (p, h) =
    rw
      (
        join-relative s rest p,
        split_from-join b'/' s rest (All-map _ _ (λ t q. q.one_part) (s ∷ rest) (p, h)),
      )
      (first_pieces-IsPart (s ∷ rest) (p, h))
