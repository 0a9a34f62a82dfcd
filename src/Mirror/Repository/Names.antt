-- ===== src/Mirror/Repository/Names.antt =====
-- `_MIRROR_NAME_RE`: `^[A-Za-z0-9][A-Za-z0-9_.-]{0,63}$`. Python's `$` also matches before a final
-- line feed.
use ham_spectrum_analysis.Prelude.{
  ℕ, zero, suc, Bool, true, false, ◌&&◌, ◌||◌, [], ◌∷◌, leb, is_empty, ◌==◌, if◌then◌else◌,
}
use ham_spectrum_analysis.Text.{Text}

unfoldable pub is_alnum : ℕ → Bool
is_alnum c = (leb b'A' c && leb c b'Z') || (leb b'a' c && leb c b'z') || (leb b'0' c && leb c b'9')

unfoldable pub is_name_char : ℕ → Bool
unfolding is_alnum
is_name_char c = is_alnum c || c == b'_' || c == b'.' || c == b'-'

-- At most `room` more characters, then the end, or a line feed that ends the text.
unfoldable pub matches_rest : ℕ → Text → Bool
matches_rest room [] = true
matches_rest zero (c ∷ s) = c == 10 && is_empty s
matches_rest (suc room) (c ∷ s) =
    let rest = matches_rest room s in if is_name_char c then rest else c == 10 && is_empty s

unfoldable pub valid_name : Text → Bool
unfolding matches_rest is_name_char
valid_name [] = false
valid_name (c ∷ s) = is_alnum c && matches_rest 63 s
