-- ===== src/Db/Pins/Like.antt =====
-- SQLite's `LIKE`: `%` stands for any text, `_` for any character; ASCII letters match either case.
use supertag.Base.{ℕ, ◌+◌, Bool, true, false, ◌&&◌, ◌||◌, [], ◌∷◌, Text, leb, ◌==◌, if◌then◌else◌}

abbrev pub lower : ℕ → ℕ
lower c = if leb b'A' c && leb c b'Z' then c + 32 else c

-- The test holds of the text behind some of its characters.
abbrev pub behind_any : (Text → Bool) → Text → Bool
behind_any f [] = f []
behind_any f (d ∷ s) = f (d ∷ s) || behind_any f s

abbrev pub one_char : ℕ → (Text → Bool) → Text → Bool
one_char c f [] = false
one_char c f (d ∷ s) = (c == b'_' || lower c == lower d) && f s

unfoldable pub like : Text → Text → Bool
like [] [] = true
like [] (d ∷ s) = false
like (c ∷ pattern_rest) s =
    if c == b'%' then behind_any (like pattern_rest) s else one_char c (like pattern_rest) s
