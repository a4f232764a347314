-- ===== src/Comments/Scan.antt =====
-- The two scans and the clearing of a range, by position.
use dmanix.Base.{
  ℕ, zero, suc, ◌+◌, ◌≤◌, ◌<◌, ◌≡◌, refl, ap, ◌∙◌, inl, inr, Bool, true, false, List, [], ◌∷◌, Text,
  length, drop, get_or, set, length-set, ◌&&◌, ◌==◌, leb, ltb, Bool-cases, arith, if◌then◌else◌,
}
use dmanix.Comments.{first_index, dummy, clear_lines}

pub first_index_le : (p : Text → Bool) (xs : List Text) → first_index p xs ≤ length xs
unfolding first_index
first_index_le p [] = omega arith
first_index_le p (x ∷ xs) = ground (arith, first_index_le p xs)

-- Below the index the test fails, and at the index it passes.
pub first_index_fails :
    (p : Text → Bool) (xs : List Text) (j : ℕ) → j < first_index p xs → p (get_or xs j []) ≡ false
unfolding first_index
first_index_fails p [] j h = absurd (omega arith)
first_index_fails p (x ∷ xs) zero h = ground arith
first_index_fails p (x ∷ xs) (suc j) h = ground (arith, first_index_fails p xs j)

pub first_index_passes :
    (p : Text → Bool) (xs : List Text)
    → first_index p xs < length xs
    → p (get_or xs (first_index p xs) []) ≡ true
unfolding first_index
first_index_passes p [] h = absurd (omega arith)
first_index_passes p (x ∷ xs) h = elim (Bool-cases (p x)) [
  | inl e ↦ rw (e, e)
  | inr e ↦ rw e (first_index_passes p xs (ground arith))
]

pub get_or-drop : (xs : List Text) (i j : ℕ) → get_or (drop i xs) j [] ≡ get_or xs (i + j) []
get_or-drop xs zero j = ap (λ (n : ℕ). get_or xs n []) (omega arith)
get_or-drop [] (suc i) j = refl
get_or-drop (x ∷ xs) (suc i) j =
    get_or-drop xs i j
    ∙ ap (λ (n : ℕ). get_or (x ∷ xs) n []) (let e : suc (i + j) ≡ suc i + j = omega arith in e)

pub get_or-set :
    (xs : List Text) (i j : ℕ) (v : Text)
    → i < length xs
    → get_or (set xs i v) j [] ≡ (if i == j then v else get_or xs j [])
get_or-set [] i j v h = absurd (omega arith)
get_or-set (x ∷ xs) zero zero v h = refl
get_or-set (x ∷ xs) zero (suc j) v h = ground arith
get_or-set (x ∷ xs) (suc i) zero v h = ground arith
get_or-set (x ∷ xs) (suc i) (suc j) v h = ground (arith, get_or-set xs i j v)

pub length-clear_lines :
    (n begin : ℕ) (lines : List Text) → length (clear_lines n begin lines) ≡ length lines
unfolding clear_lines
length-clear_lines zero begin lines = refl
length-clear_lines (suc n) begin lines =
    omega (
      arith,
      length-clear_lines n (begin + 1) (set lines begin dummy),
      length-set lines begin dummy,
    )

-- The range that starts at `begin` holds the dummy comment, and every other line is as before.
pub get_or-clear_lines :
    (n begin : ℕ) (lines : List Text) (j : ℕ)
    → begin + n ≤ length lines
    → get_or (clear_lines n begin lines) j []
      ≡ (if leb begin j && ltb j (begin + n) then dummy else get_or lines j [])
unfolding clear_lines
get_or-clear_lines zero begin lines j h = ground arith
get_or-clear_lines (suc n) begin lines j h = ground (
  arith,
  get_or-clear_lines n (begin + 1) (set lines begin dummy) j,
  get_or-set lines begin j dummy,
  length-set lines begin dummy,
)
