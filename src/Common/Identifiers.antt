-- ===== src/Common/Identifiers.antt =====
-- The names that the programs admit: `[A-Za-z0-9][A-Za-z0-9_-]{0,62}`.
use dragontools.Common.{ℕ, Bool, true, false, ◌&&◌, ◌||◌, [], ◌∷◌, Text, length, leb, ◌==◌, nat_eq}

abbrev pub is_alphanumeric : ℕ → Bool
is_alphanumeric c = (leb 48 c && leb c 57) || (leb 65 c && leb c 90) || (leb 97 c && leb c 122)

abbrev pub all_codes : (ℕ → Bool) → Text → Bool
all_codes p [] = true
all_codes p (c ∷ s) = p c && all_codes p s

-- The pattern matches the whole text.
unfoldable pub is_identifier : Text → Bool
is_identifier [] = false
is_identifier (c ∷ s) =
    is_alphanumeric c
    && (leb (length s) 62 && all_codes (λ d. is_alphanumeric d || d == 95 || d == 45) s)
