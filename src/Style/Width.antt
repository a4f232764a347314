-- ===== src/Style/Width.antt =====
-- scripts/cpplint.py: `GetLineWidth`, for a text that is `unicode`, as every line of a file is.
use dmanix.Base.{ℕ, ◌+◌, Bool, [], ◌∷◌, Text, if◌then◌else◌}

-- unicodedata: normalize('NFC', text), east_asian_width(uc) in ('W', 'F') and combining(uc) != 0
pub record UnicodeData : Type 0 where
  pub normalize_nfc : Text → Text
  pub is_wide : ℕ → Bool
  pub is_combining : ℕ → Bool

abbrev pub char_width : UnicodeData → ℕ → ℕ
char_width unicodedata uc =
    if unicodedata.is_wide uc then 2 else if unicodedata.is_combining uc then 0 else 1

-- The loop, with the sum of the characters that are left.
unfoldable pub sum_widths : UnicodeData → Text → ℕ
sum_widths unicodedata [] = 0
sum_widths unicodedata (uc ∷ text) = char_width unicodedata uc + sum_widths unicodedata text

unfoldable pub get_line_width : UnicodeData → Text → ℕ
unfolding sum_widths
get_line_width unicodedata line = sum_widths unicodedata (unicodedata.normalize_nfc line)
