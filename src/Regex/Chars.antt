-- ===== src/Regex/Chars.antt =====
-- The notation of patterns: literals, character classes and the derived repetitions.
use mathlib.Core.Bool.{not}
use dmanix.Base.{
  ℕ, zero, suc, Bool, ◌&&◌, List, [], ◌∷◌, Text, String, codes, leb, ◌==◌, mem_char, is_ascii_space,
}
use dmanix.Regex.{Regex, one, empty, seq, alt, star, lazy, is_word}

infixr 60 ◌⨾◌
infixr 55 ◌⊕◌
abbrev pub ◌⨾◌ : Regex → Regex → Regex
r ⨾ s = seq r s

abbrev pub ◌⊕◌ : Regex → Regex → Regex
r ⊕ s = alt r s

abbrev pub chr : ℕ → Regex
chr c = one (λ d. d == c)

abbrev pub literal : Text → Regex
literal [] = empty
literal (c ∷ []) = chr c
literal (c ∷ d ∷ s) = chr c ⨾ literal (d ∷ s)

-- A text that stands for itself.
abbrev pub lit : String → Regex
lit s = literal (codes s)

-- `(?:a|b|c)` for texts
abbrev pub one_of : String → List String → Regex
one_of w [] = lit w
one_of w (v ∷ ws) = lit w ⊕ one_of v ws

-- `[abc]` and `[^abc]`
abbrev pub in_set : String → Regex
in_set s = one (λ d. mem_char d (codes s))

abbrev pub not_in_set : String → Regex
not_in_set s = one (λ d. not (mem_char d (codes s)))

-- `.`
abbrev pub dot : Regex
dot = one (λ d. not (d == 10))

-- `\s`, `\S`, `\w`, `\W`, `\d`
abbrev pub space : Regex
space = one is_ascii_space

abbrev pub non_space : Regex
non_space = one (λ d. not (is_ascii_space d))

abbrev pub word_char : Regex
word_char = one is_word

abbrev pub non_word : Regex
non_word = one (λ d. not (is_word d))

abbrev pub is_digit : ℕ → Bool
is_digit d = leb b'0' d && leb d b'9'

abbrev pub digit : Regex
digit = one is_digit

-- `r+`, `r+?`, `r?`, `r??`
abbrev pub plus : Regex → Regex
plus r = r ⨾ star r

abbrev pub lazy_plus : Regex → Regex
lazy_plus r = r ⨾ lazy r

abbrev pub opt : Regex → Regex
opt r = r ⊕ empty

-- `r{0,n}`
abbrev pub up_to : ℕ → Regex → Regex
up_to zero r = empty
up_to (suc n) r = opt (r ⨾ up_to n r)
