-- ===== src/Brackets/Across.antt =====
-- The scan of a text in two parts, and the difference of counts that carries the depth over a line.
use dmanix.Base.{
  ℕ, zero, suc, ◌+◌, ◌-◌, ◌≤◌, ◌<◌, ◌≡◌, ◌≢◌, refl, sym, ap, inl, inr, Option, none, some, [], ◌∷◌,
  ◌++◌, Text, count_char, length, Option-cases, map_option, leb, arith,
}
use dmanix.Base.Int.{ℤ, pos, ◌+ℤ◌, up, down, at_most_zero}
use dmanix.Brackets.{scan_end, find_end_of_expression_in_line, open_count}
use dmanix.Brackets.Scan.{map_suc-some, map_suc-none, scan_positive, scan_none-total}

map_suc-map :
    (n : ℕ) (o : Option ℕ)
    → map_option suc (map_option (λ k. n + k) o) ≡ map_option (λ k. suc n + k) o
map_suc-map n none = refl
map_suc-map n (some k) = ap (λ (j : ℕ). some j) (omega arith)

map_zero : (o : Option ℕ) → o ≡ map_option (λ k. 0 + k) o
map_zero none = refl
map_zero (some k) = ap (λ (j : ℕ). some j) (omega arith)

-- The scan of a longer text, where the front part gives an answer.
pub scan_front :
    (d : ℤ) (a z : ℕ) (s t : Text) (k : ℕ)
    → scan_end d a z s ≡ some k
    → scan_end d a z (s ++ t) ≡ some k
unfolding scan_end
scan_front d a z [] t k h = absurd (cc)
scan_front d a z (c ∷ s) t zero h = absurd (scan_positive d a z (c ∷ s) h)
scan_front d a z (c ∷ s) t (suc k) h = ground (
  arith,
  map_suc-some (scan_end (up d) a z s) k,
  map_suc-some (scan_end (down d) a z s) k,
  map_suc-some (scan_end d a z s) k,
  scan_front (up d) a z s t k,
  scan_front (down d) a z s t k,
  scan_front d a z s t k,
)

-- And where it gives none: the scan goes on in the back part, from the depth that is left.
pub scan_back :
    (n m a z : ℕ) (s t : Text)
    → a ≢ z
    → scan_end (pos (suc n)) a z s ≡ none
    → suc n + count_char a s ≡ suc m + count_char z s
    → scan_end (pos (suc n)) a z (s ++ t)
      ≡ map_option (λ k. length s + k) (scan_end (pos (suc m)) a z t)
unfolding scan_end count_char
scan_back n m a z [] t ne h e =
    let k : n ≡ m = omega arith in rw k (map_zero (scan_end (pos (suc m)) a z t))
scan_back zero m a z (c ∷ s) t ne h e = ground (
  arith,
  map_suc-none (scan_end (pos 2) a z s),
  map_suc-none (scan_end (pos 1) a z s),
  scan_back 1 m a z s t ne,
  scan_back 0 m a z s t ne,
  map_suc-map (length s) (scan_end (pos (suc m)) a z t),
)
scan_back (suc n) m a z (c ∷ s) t ne h e = ground (
  arith,
  map_suc-none (scan_end (pos (suc (suc (suc n)))) a z s),
  map_suc-none (scan_end (pos (suc (suc n))) a z s),
  map_suc-none (scan_end (pos (suc n)) a z s),
  scan_back (suc (suc n)) m a z s t ne,
  scan_back (suc n) m a z s t ne,
  scan_back n m a z s t ne,
  map_suc-map (length s) (scan_end (pos (suc m)) a z t),
)

-- A difference of counts that leaves a positive number.
pub open_left :
    (n a z : ℕ) (s : Text)
    → count_char z s < suc n + count_char a s
    → (m : ℕ) × (pos (suc n) +ℤ open_count a z s ≡ pos (suc m))
      × (suc n + count_char a s ≡ suc m + count_char z s)
unfolding ◌+ℤ◌
open_left n a z s h = (n + count_char a s - count_char z s, ground arith, omega arith)

-- The test of the loop compares the two counts.
pub open_test :
    (n a z : ℕ) (s : Text)
    → at_most_zero (pos (suc n) +ℤ open_count a z s) ≡ leb (suc n + count_char a s) (count_char z s)
unfolding ◌+ℤ◌
open_test n a z s = ground arith

-- A line whose closing brackets outnumber the depth and the opening ones ends the search.
pub scan_ends :
    (n a z : ℕ) (s : Text)
    → suc n + count_char a s ≤ count_char z s
    → (k : ℕ) × (scan_end (pos (suc n)) a z s ≡ some k)
scan_ends n a z s h = elim (Option-cases (scan_end (pos (suc n)) a z s)) [
  | inl e ↦ absurd (omega (arith, scan_none-total n a z s e))
  | inr found ↦ found
]

pub find_at_zero :
    (d : ℤ) (a z : ℕ) (s : Text) → find_end_of_expression_in_line s 0 d a z ≡ scan_end d a z s
unfolding find_end_of_expression_in_line
find_at_zero d a z s = sym (map_zero (scan_end d a z s))
