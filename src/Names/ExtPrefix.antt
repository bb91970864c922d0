-- ===== src/Names/ExtPrefix.antt =====
-- The mark before the extension is set, seen and stripped consistently.
use mathlib.Core.Option.{some-injective}
use mathlib.Core.Path.{subst}
use supertag.Base.{
  ℕ, ◌≡◌, ◌≢◌, ◌↔◌, refl, sym, ap, ◌∙◌, Bool, true, false, [], ◌∷◌, ◌++◌, Option, none, some, arith,
  Text, Lacks, All-append, All-append_left, Option-cases, inl, inr, ◌==◌, ==_refl, ends_with,
  strip_len, ends_with-append, strip_len-append, append-strip_len, if◌then◌else◌,
}
use supertag.Names.{dot, rsplit_once, rsplitn, strip_ext_prefix, has_ext_prefix, set_ext_prefix}

-- Without the character there is no cut.
pub rsplit_once-Lacks : (c : ℕ) (s : Text) → Lacks c s → rsplit_once c s ≡ none
unfolding rsplit_once
rsplit_once-Lacks c [] h = refl
rsplit_once-Lacks c (x ∷ s) (hx, hs) = rw (rsplit_once-Lacks c s hs) (ground arith)

-- The cut is at the last occurrence.
pub rsplit_once-append :
    (c : ℕ) (before after : Text)
    → Lacks c after
    → rsplit_once c (before ++ c ∷ after) ≡ some (before, after)
unfolding rsplit_once
rsplit_once-append c [] after h = rw (rsplit_once-Lacks c after h, ==_refl)
rsplit_once-append c (x ∷ before) after h = rw (rsplit_once-append c before after h)

rsplit_once-none : (c : ℕ) (s : Text) → rsplit_once c s ≡ none → Lacks c s
unfolding rsplit_once
rsplit_once-none c [] h = tt
rsplit_once-none c (x ∷ s) h = (ground arith, rsplit_once-none c s (ground arith))

rsplit_once-some :
    (c : ℕ) (s before after : Text)
    → rsplit_once c s ≡ some (before, after)
    → (s ≡ before ++ c ∷ after) × Lacks c after
unfolding rsplit_once
rsplit_once-some c [] before after h = cc
rsplit_once-some c (x ∷ s) before after h = elim (Option-cases (rsplit_once c s)) [
  | inl e ↦
      let lacks = rsplit_once-none c s e in
      let h' : ◌≡◌ {A = Option (Text × Text)} (if x == c then some ([], s) else none)
          (some (before, after)) =
        rw (e, rsplit_once) at h in
      (ground arith, subst (Lacks c) (ground arith) lacks)
  | inr ((b, a), e) ↦
      let (split, lacks) = rsplit_once-some c s b a e in
      let h' : ◌≡◌ {A = Option (Text × Text)} (some (x ∷ b, a)) (some (before, after)) =
        rw (e, rsplit_once) at h in
      (ground arith, subst (Lacks c) (ground arith) lacks)
]

-- Every name is its own stem, or is cut at its last dot.
data Cut (name : Text) : Type 0 where
  whole : Lacks dot name → Cut name
  at_dot : (stem ext : Text) → name ≡ stem ++ dot ∷ ext → Lacks dot ext → Cut name

Cut-of : (name : Text) → Cut name
Cut-of name = elim (Option-cases (rsplit_once dot name)) [
  | inl e ↦ whole (rsplit_once-none dot name e)
  | inr ((stem, ext), e) ↦
      let (split, lacks) = rsplit_once-some dot name stem ext e in at_dot stem ext split lacks
]

rsplitn_whole : (name : Text) → Lacks dot name → rsplitn name ≡ name ∷ []
unfolding rsplitn
rsplitn_whole name h = rw (rsplit_once-Lacks dot name h, rsplitn)

rsplitn_at_dot : (stem ext : Text) → Lacks dot ext → rsplitn (stem ++ dot ∷ ext) ≡ ext ∷ stem ∷ []
unfolding rsplitn
rsplitn_at_dot stem ext h = rw (rsplit_once-append dot stem ext h, rsplitn)

set_whole : (name mark : Text) → Lacks dot name → set_ext_prefix name mark ≡ name ++ mark
unfolding set_ext_prefix
set_whole name mark h = rw (rsplitn_whole name h)

set_at_dot :
    (stem ext mark : Text)
    → Lacks dot ext
    → set_ext_prefix (stem ++ dot ∷ ext) mark ≡ (stem ++ mark) ++ dot ∷ ext
unfolding set_ext_prefix
set_at_dot stem ext mark h = rw (rsplitn_at_dot stem ext h)

pub strip_whole :
    (name mark : Text)
    → Lacks dot name
    → strip_ext_prefix name mark
      ≡ (if ends_with name mark then some (strip_len name mark) else none)
unfolding strip_ext_prefix
strip_whole name mark h = rw (rsplitn_whole name h)

pub strip_at_dot :
    (stem ext mark : Text)
    → Lacks dot ext
    → strip_ext_prefix (stem ++ dot ∷ ext) mark
      ≡ (if ends_with stem mark then some (strip_len stem mark ++ dot ∷ ext) else none)
unfolding strip_ext_prefix
strip_at_dot stem ext mark h = rw (rsplitn_at_dot stem ext h)

has_whole : (name mark : Text) → Lacks dot name → has_ext_prefix name mark ≡ ends_with name mark
unfolding has_ext_prefix
has_whole name mark h = rw (rsplitn_whole name h)

has_at_dot :
    (stem ext mark : Text)
    → Lacks dot ext
    → has_ext_prefix (stem ++ dot ∷ ext) mark ≡ ends_with stem mark
unfolding has_ext_prefix
has_at_dot stem ext mark h = rw (rsplitn_at_dot stem ext h)

-- A mark with no dot in it is stripped from the name on which it was set.
pub strip_ext_prefix-set_ext_prefix :
    (name mark : Text)
    → Lacks dot mark
    → strip_ext_prefix (set_ext_prefix name mark) mark ≡ some name
strip_ext_prefix-set_ext_prefix name mark h = elim (Cut-of name) [
  | whole lacks ↦ rw (
    set_whole name mark lacks,
    strip_whole (name ++ mark) mark (All-append _ name mark lacks h),
    ends_with-append,
    strip_len-append,
  )
  | at_dot stem ext e lacks ↦ rw (
    e,
    set_at_dot stem ext mark lacks,
    strip_at_dot (stem ++ mark) ext mark lacks,
    ends_with-append,
    strip_len-append,
  )
]

-- What a conditional `some` returns.
if_some {ℓ} :
    {A : Type ℓ} (b : Bool) (a r : A) → (if b then some a else none) ≡ some r → (b ≡ true) × (a ≡ r)
if_some true a r h = (refl, some-injective _ _ h)
if_some false a r h = absurd (cc)

Lacks-stem :
    (name mark : Text)
    → Lacks dot name
    → ends_with name mark ≡ true
    → Lacks dot (strip_len name mark)
Lacks-stem name mark lacks h =
    All-append_left (λ x. x ≢ dot) (strip_len name mark) mark
      (subst (Lacks dot) (append-strip_len name mark h) lacks)

-- Setting again a mark that was stripped gives the name back, for every mark.
pub set_ext_prefix-strip_ext_prefix :
    (name mark rest : Text)
    → strip_ext_prefix name mark ≡ some rest
    → set_ext_prefix rest mark ≡ name
set_ext_prefix-strip_ext_prefix name mark rest h = elim (Cut-of name) [
  | whole lacks ↦
      let (ends, e) = if_some _ _ _ (sym (strip_whole name mark lacks) ∙ h) in
      rw (← e)
        (set_whole _ mark (Lacks-stem name mark lacks ends) ∙ sym (append-strip_len name mark ends))
  | at_dot stem ext e lacks ↦
      let (ends, e') = if_some _ _ _ (sym (strip_at_dot stem ext mark lacks) ∙ (rw e at h)) in
      rw (← e') (
        set_at_dot _ ext mark lacks
        ∙ ap (λ s. s ++ dot ∷ ext) (sym (append-strip_len stem mark ends))
        ∙ sym e)
]

-- `has_ext_prefix` says exactly whether there is a mark to strip.
pub has_ext_prefix-iff-strip :
    (name mark : Text)
    → (has_ext_prefix name mark ≡ true) ↔ ((rest : Text) × (strip_ext_prefix name mark ≡ some rest))
has_ext_prefix-iff-strip name mark = elim (Cut-of name) [
  | whole lacks ↦ (
    λ h. (strip_len name mark, rw (strip_whole name mark lacks, ← has_whole name mark lacks, h)),
    λ (r, h). has_whole name mark lacks ∙ (if_some _ _ _ (sym (strip_whole name mark lacks) ∙ h)).0,
  )
  | at_dot stem ext e lacks ↦ rw e (
    λ h. (
      strip_len stem mark ++ dot ∷ ext,
      rw (strip_at_dot stem ext mark lacks, ← has_at_dot stem ext mark lacks, h),
    ),
    λ (r, h).
        has_at_dot stem ext mark lacks
        ∙ (if_some _ _ _ (sym (strip_at_dot stem ext mark lacks) ∙ h)).0,
  )
]
