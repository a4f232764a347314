-- ===== src/Whole/Returns.antt =====
-- The removal of trailing carriage returns.
use mathlib.Core.List.{reverse-reverse}
use dmanix.Base.{
  suc, ◌≡◌, refl, ap, inl, inr, Bool, false, none, List, [], ◌∷◌, Text, length, All, any, reverse,
  ends_with, before_suffix, after_prefix, ◌==◌, Bool-cases,
}
use dmanix.Paths.{lstrip_char, rstrip_char}
use dmanix.Whole.{remove_returns}

abbrev pub ends_in_return : Text → Bool
ends_in_return line = ends_with line (13 ∷ [])

lstrip_char-none : (s : Text) → after_prefix (lstrip_char 13 s) (13 ∷ []) ≡ none
unfolding lstrip_char after_prefix
lstrip_char-none [] = refl
lstrip_char-none (d ∷ s) = elim (Bool-cases (d == 13)) [
  | inl e ↦ rw e (lstrip_char-none s)
  | inr e ↦ rw e (rw e refl)
]

rstrip_char-none : (s : Text) → ends_in_return (rstrip_char 13 s) ≡ false
unfolding ends_with before_suffix rstrip_char
rstrip_char-none s = rw reverse-reverse (rw (lstrip_char-none (reverse s)) refl)

-- The loop keeps the number of lines, leaves no line that ends with a carriage return, and notes whether
-- there was one.
pub remove_returns_lem :
    (lines : List Text)
    → All (λ l. ends_in_return l ≡ false) (remove_returns lines).0
      × (length (remove_returns lines).0 ≡ length lines)
      × ((remove_returns lines).1 ≡ any ends_in_return lines)
unfolding remove_returns any
remove_returns_lem [] = (tt, refl, refl)
remove_returns_lem (line ∷ lines) =
    let (a, b, c) = remove_returns_lem lines in
    elim (Bool-cases (ends_in_return line)) [
      | inl e ↦ rw e ((rstrip_char-none line, a), ap suc b, refl)
      | inr e ↦ rw e ((e, a), ap suc b, c)
    ]
