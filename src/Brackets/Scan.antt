-- ===== src/Brackets/Scan.antt =====
-- The scan of one line from a positive depth.
use dmanix.Base.{
  ℕ, zero, suc, ◌+◌, ◌<◌, ◌≡◌, refl, Option, none, some, [], ◌∷◌, Text, count_char, take, length,
  map_option, arith,
}
use dmanix.Base.Int.{ℤ, pos, up, down}
use dmanix.Brackets.{scan_end}

-- Among the first `k` characters, the closing ones use up the depth and the opening ones.
abbrev pub Level : ℕ → ℕ → ℕ → Text → ℕ → Type 0
Level n a z s k = count_char z (take k s) ≡ suc n + count_char a (take k s)

-- They do not yet.
abbrev pub Inside : ℕ → ℕ → ℕ → Text → ℕ → Type 0
Inside n a z s k = count_char z (take k s) < suc n + count_char a (take k s)

pub map_suc-none : (o : Option ℕ) → map_option suc o ≡ none → o ≡ none
map_suc-none none h = refl
map_suc-none (some k) h = cc

scan_none : (n a z : ℕ) (s : Text) (k : ℕ) → scan_end (pos (suc n)) a z s ≡ none → Inside n a z s k
unfolding scan_end count_char
scan_none n a z s zero h = omega arith
scan_none n a z [] (suc k) h = omega arith
scan_none zero a z (c ∷ s) (suc k) h = ground (
  arith,
  map_suc-none (scan_end (pos 2) a z s),
  map_suc-none (scan_end (pos 1) a z s),
  scan_none 1 a z s k,
  scan_none 0 a z s k,
)
scan_none (suc n) a z (c ∷ s) (suc k) h = ground (
  arith,
  map_suc-none (scan_end (pos (suc (suc (suc n)))) a z s),
  map_suc-none (scan_end (pos (suc (suc n))) a z s),
  map_suc-none (scan_end (pos (suc n)) a z s),
  scan_none (suc (suc n)) a z s k,
  scan_none (suc n) a z s k,
  scan_none n a z s k,
)

pub map_suc-some : (o : Option ℕ) (k : ℕ) → map_option suc o ≡ some (suc k) → o ≡ some k
map_suc-some none k h = cc
map_suc-some (some j) k h = ground arith

map_suc_zero : (o : Option ℕ) → map_option suc o ≡ some 0 → ⊥
map_suc_zero none h = cc
map_suc_zero (some j) h = ground arith

pub scan_positive : (d : ℤ) (a z : ℕ) (s : Text) → scan_end d a z s ≡ some 0 → ⊥
unfolding scan_end
scan_positive d a z [] h = cc
scan_positive d a z (c ∷ s) h = ground (
  arith,
  map_suc_zero (scan_end (up d) a z s),
  map_suc_zero (scan_end (down d) a z s),
  map_suc_zero (scan_end d a z s),
)

-- At the answer the level is reached.
pub scan-Level :
    (n a z : ℕ) (s : Text) (k : ℕ) → scan_end (pos (suc n)) a z s ≡ some k → Level n a z s k
unfolding scan_end count_char
scan-Level n a z s zero h = absurd (scan_positive (pos (suc n)) a z s h)
scan-Level n a z [] (suc k) h = absurd (cc)
scan-Level zero a z (c ∷ s) (suc k) h = ground (
  arith,
  map_suc-some (scan_end (pos 2) a z s) k,
  map_suc-some (scan_end (pos 1) a z s) k,
  scan-Level 1 a z s k,
  scan-Level 0 a z s k,
)
scan-Level (suc n) a z (c ∷ s) (suc k) h = ground (
  arith,
  map_suc-some (scan_end (pos (suc (suc (suc n)))) a z s) k,
  map_suc-some (scan_end (pos (suc (suc n))) a z s) k,
  map_suc-some (scan_end (pos (suc n)) a z s) k,
  scan-Level (suc (suc n)) a z s k,
  scan-Level (suc n) a z s k,
  scan-Level n a z s k,
)

-- Before the answer it is not.
scan_before :
    (n a z : ℕ) (s : Text) (k j : ℕ)
    → scan_end (pos (suc n)) a z s ≡ some k
    → j < k
    → Inside n a z s j
unfolding scan_end count_char
scan_before n a z s zero j h l = absurd (omega arith)
scan_before n a z s (suc k) zero h l = omega arith
scan_before n a z [] (suc k) (suc j) h l = omega arith
scan_before zero a z (c ∷ s) (suc k) (suc j) h l = ground (
  arith,
  map_suc-some (scan_end (pos 2) a z s) k,
  map_suc-some (scan_end (pos 1) a z s) k,
  scan_before 1 a z s k j,
  scan_before 0 a z s k j,
)
scan_before (suc n) a z (c ∷ s) (suc k) (suc j) h l = ground (
  arith,
  map_suc-some (scan_end (pos (suc (suc (suc n)))) a z s) k,
  map_suc-some (scan_end (pos (suc (suc n))) a z s) k,
  map_suc-some (scan_end (pos (suc n)) a z s) k,
  scan_before (suc (suc n)) a z s k j,
  scan_before (suc n) a z s k j,
  scan_before n a z s k j,
)

abbrev pub Answer : ℕ → ℕ → ℕ → Text → Option ℕ → Type 0
Answer n a z s none = (k : ℕ) → Inside n a z s k
Answer n a z s (some k) = Level n a z s k × ((j : ℕ) → j < k → Inside n a z s j)

answer : (n a z : ℕ) (s : Text) (o : Option ℕ) → scan_end (pos (suc n)) a z s ≡ o → Answer n a z s o
answer n a z s none h = λ k. scan_none n a z s k h
answer n a z s (some k) h = (scan-Level n a z s k h, λ j l. scan_before n a z s k j h l)

-- From a positive depth the scan of a line answers with the least number of characters among which the
-- closing brackets use up the depth and the opening ones, and with none where no number is so.
pub scan_end-Answer : (n a z : ℕ) (s : Text) → Answer n a z s (scan_end (pos (suc n)) a z s)
scan_end-Answer n a z s = answer n a z s (scan_end (pos (suc n)) a z s) refl

pub take_all : (s : Text) → take (length s) s ≡ s
take_all [] = refl
take_all (c ∷ s) = rw (take_all s)

-- A line on which the search does not end leaves a positive depth.
pub scan_none-total :
    (n a z : ℕ) (s : Text)
    → scan_end (pos (suc n)) a z s ≡ none
    → count_char z s < suc n + count_char a s
scan_none-total n a z s h = rw (take_all s) at (scan_none n a z s (length s) h)
