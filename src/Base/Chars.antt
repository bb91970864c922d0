-- ===== src/Base/Chars.antt =====
-- Text as the list of its code points, with the tests and searches of `str` that the program uses.
use Prim.Native.Nat.{ℕ, ◌-◌}
use Prim.Native.Char.{code}
use Prim.Native.String.{String}
use mathlib.Core.Path.{◌≡◌, refl, ap}
use mathlib.Core.Logic.{◌≢◌, ◌↔◌, inl, inr}
use mathlib.Core.List.{List, [], ◌∷◌, ◌++◌}
use mathlib.Core.Bool.{Bool, true, false, ◌&&◌, ◌||◌}
use native.Mathlib.Omega.{arith}
use supertag.Base.Tests.{◌==◌, Bool-cases}
use supertag.Base.Lists.{length, take, All, length-append, take-append}

abbrev pub Text : Type 0
Text = List ℕ

abbrev pub codes : String → Text
codes String.[] = []
codes (String.◌∷◌ c s) = code c ∷ codes s

unfoldable pub text_eq : Text → Text → Bool
text_eq [] [] = true
text_eq (c ∷ s) (d ∷ t) = (c == d) && text_eq s t
text_eq _ _ = false

text_eq_sound : (s t : Text) → text_eq s t ≡ true → s ≡ t
unfolding text_eq
text_eq_sound [] [] h = refl
text_eq_sound [] (d ∷ t) h = cc
text_eq_sound (c ∷ s) [] h = cc
text_eq_sound (c ∷ s) (d ∷ t) h = ground (arith, text_eq_sound s t)

pub text_eq_refl : (s : Text) → text_eq s s ≡ true
unfolding text_eq
text_eq_refl [] = refl
text_eq_refl (c ∷ s) = ground (arith, text_eq_refl s)

pub text_eq_iff : (s t : Text) → (text_eq s t ≡ true) ↔ (s ≡ t)
text_eq_iff s t = (text_eq_sound s t, λ e. rw e (text_eq_refl t))

pub text_ne→false : (s t : Text) → s ≢ t → text_eq s t ≡ false
text_ne→false s t h = elim (Bool-cases (text_eq s t)) [
  | inl e ↦ absurd (h (text_eq_sound s t e))
  | inr e ↦ e
]

-- No character of the text is `c`.
abbrev pub Lacks : ℕ → Text → Type 0
Lacks c = All (λ x. x ≢ c)

unfoldable pub starts_with : Text → Text → Bool
starts_with s [] = true
starts_with [] (d ∷ t) = false
starts_with (c ∷ s) (d ∷ t) = (c == d) && starts_with s t

unfoldable pub ends_with : Text → Text → Bool
ends_with [] t = text_eq [] t
ends_with (c ∷ s) t = text_eq (c ∷ s) t || ends_with s t

unfoldable pub contains_char : Text → ℕ → Bool
contains_char [] c = false
contains_char (x ∷ s) c = (x == c) || contains_char s c

-- `s[..s.len() - t.len()]`
unfoldable pub strip_len : Text → Text → Text
strip_len s t = take (length s - length t) s

pub ends_with-append : (s t : Text) → ends_with (s ++ t) t ≡ true
unfolding ends_with
ends_with-append [] [] = text_eq_refl []
ends_with-append [] (d ∷ t) = rw text_eq_refl
ends_with-append (c ∷ s) t = ground (arith, ends_with-append s t)

pub strip_len-append : (s t : Text) → strip_len (s ++ t) t ≡ s
unfolding strip_len
strip_len-append s t =
    let e : length (s ++ t) - length t ≡ length s = omega (arith, length-append s t) in
    rw e (take-append s t)

ends_with_split : (s t : Text) → ends_with s t ≡ true → (r : Text) × (s ≡ r ++ t)
unfolding ends_with
ends_with_split [] t h = ([], text_eq_sound [] t h)
ends_with_split (c ∷ s) t h = elim (Bool-cases (text_eq (c ∷ s) t)) [
  | inl e ↦ ([], text_eq_sound (c ∷ s) t e)
  | inr e ↦ let (r, p) = ends_with_split s t (ground arith) in (c ∷ r, ap (◌∷◌ c) p)
]

-- A text that ends with `t` is what the slice leaves, followed by `t`.
pub append-strip_len : (s t : Text) → ends_with s t ≡ true → s ≡ strip_len s t ++ t
append-strip_len s t h = let (r, p) = ends_with_split s t h in rw (p, strip_len-append)
