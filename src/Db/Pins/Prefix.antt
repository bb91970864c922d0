-- ===== src/Db/Pins/Prefix.antt =====
-- The pattern of a path matches the pin of every path that continues it.
use supertag.Base.{
  ℕ, ◌≡◌, refl, sym, ap, ◌∙◌, Bool, true, false, List, [], ◌∷◌, ◌++◌, Text, arith, All, All-append,
  All-map, append_assoc, find, ◌==◌, ==_iff,
}
use supertag.Base.Unique.{is_some}
use supertag.Db.Pins.{slash, tag_pin, group_pin}
use supertag.Db.Pins.Like.{like, lower, behind_any}
use supertag.Radix
use supertag.Radix.RoundTrip
use supertag.Tags.Collection

-- No wildcard for several characters
abbrev pub Plain : Text → Type 0
Plain s = All (λ c. (c == b'%') ≡ false) s

behind_any-nil : (s : Text) → behind_any (like []) s ≡ true
unfolding like
behind_any-nil [] = refl
behind_any-nil (c ∷ s) = ground (arith, behind_any-nil s)

-- A text without `%` matches itself, and more behind it what follows.
like-Plain :
    (lit pattern_rest s : Text)
    → Plain lit
    → like (lit ++ pattern_rest) (lit ++ s) ≡ like pattern_rest s
unfolding like
like-Plain [] pattern_rest s h = refl
like-Plain (c ∷ lit) pattern_rest s (hc, h) =
    let same : (lower c == lower c) ≡ true = (==_iff (lower c) (lower c)).1 refl in
    rw (hc, same) (ground (arith, like-Plain lit pattern_rest s h))

pub like_below :
    (lit rest : Text) → Plain lit → like (lit ++ slash ∷ b'%' ∷ []) (lit ++ slash ∷ rest) ≡ true
unfolding like
like_below lit rest h = like-Plain lit (slash ∷ b'%' ∷ []) (slash ∷ rest) h ∙ behind_any-nil rest

digits-Plain : (n : ℕ) → Plain (Radix.format 10 n)
digits-Plain n =
    All-map (RoundTrip.IsDigit 10 (omega arith)) (λ c. (c == b'%') ≡ false) (λ c h. ground arith)
      (Radix.format 10 n) (RoundTrip.format-All 10 (omega arith) n)

pub tag_pin-Plain : (n : ℕ) → Plain (tag_pin n)
tag_pin-Plain n = (refl, digits-Plain n)

pub group_pin-Plain : (n : ℕ) → Plain (group_pin n)
group_pin-Plain n = (refl, digits-Plain n)

pub join-Plain : (ids : List Text) → All Plain ids → Plain (Collection.join slash ids)
unfolding Collection.join
join-Plain [] h = tt
join-Plain (s ∷ []) (hs, h) = hs
join-Plain (s ∷ t ∷ ids) (hs, h) =
    All-append (λ c. (c == b'%') ≡ false) s (slash ∷ Collection.join slash (t ∷ ids)) hs
      (refl, join-Plain (t ∷ ids) h)

-- A pin begins with the record of each of its paths.
pub join-append :
    (s : Text) (ids rest : List Text)
    → (after : Text) × (Collection.join slash ((s ∷ ids) ++ rest) ++ slash ∷ []
        ≡ Collection.join slash (s ∷ ids) ++ slash ∷ after)
unfolding Collection.join
join-append s [] [] = ([], refl)
join-append s [] (t ∷ rest) = (Collection.join slash (t ∷ rest) ++ slash ∷ [], simp append_assoc)
join-append s (t ∷ ids) rest =
    let (after, e) = join-append t ids rest in
    (
      after,
      append_assoc s _ (slash ∷ [])
          ∙ ap (λ x. s ++ slash ∷ x) e
          ∙ sym (append_assoc s (slash ∷ Collection.join slash (t ∷ ids)) (slash ∷ after)),
    )

pub find_last :
    (q : Text → Bool) (rows : List Text) (r : Text)
    → q r ≡ true
    → is_some (find q (rows ++ r ∷ [])) ≡ true
unfolding find
find_last q [] r h = rw h
find_last q (x ∷ rows) r h = ground (arith, find_last q rows r h)
