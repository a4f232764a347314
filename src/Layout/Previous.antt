-- ===== src/Layout/Previous.antt =====
-- What `GetPreviousNonBlankLine` finds.
use dmanix.Base.{
  ℕ, zero, suc, ◌≤◌, ◌<◌, ◌≡◌, refl, ◌⊎◌, inl, inr, true, false, Option, none, some, List, [], Text,
  get_or, Bool-cases, arith,
}
use dmanix.Layout.{is_blank_line, previous_before, get_previous_non_blank_line}

-- The lines from `low` on and before `high` are blank.
abbrev pub BlankBetween : List Text → ℕ → ℕ → Type 0
BlankBetween elided low high =
    (k : ℕ) → low ≤ k → k < high → is_blank_line (get_or elided k []) ≡ true

-- The nearest line before line `n` that is not blank, or that there is none.
abbrev pub Nearest : List Text → ℕ → Text × Option ℕ → Type 0
Nearest elided n (line, none) = (line ≡ []) × BlankBetween elided 0 n
Nearest elided n (line, some j) =
    (j < n)
    × (line ≡ get_or elided j [])
    × (is_blank_line line ≡ false)
    × BlankBetween elided (suc j) n

blank_further :
    (elided : List Text) (low n : ℕ)
    → is_blank_line (get_or elided n []) ≡ true
    → BlankBetween elided low n
    → BlankBetween elided low (suc n)
blank_further elided low n e b k l h = elim (eq_or_lt k n h) [ inl q ↦ rw q e | inr q ↦ b k l q ]
  where
    eq_or_lt : (k n : ℕ) → k < suc n → (k ≡ n) ⊎ (k < n)
    eq_or_lt k n h = ground arith

Nearest-further :
    (elided : List Text) (n : ℕ) (r : Text × Option ℕ)
    → is_blank_line (get_or elided n []) ≡ true
    → Nearest elided n r
    → Nearest elided (suc n) r
Nearest-further elided n (line, none) e (l, b) = (l, blank_further elided 0 n e b)
Nearest-further elided n (line, some j) e (h, l, f, b) =
    (omega arith, l, f, blank_further elided (suc j) n e b)

pub previous_before-Nearest :
    (elided : List Text) (n : ℕ) → Nearest elided n (previous_before elided n)
unfolding previous_before
previous_before-Nearest elided zero = (refl, λ k l h. absurd (omega arith))
previous_before-Nearest elided (suc n) = elim (Bool-cases (is_blank_line (get_or elided n []))) [
  | inl e ↦
      rw e
        (Nearest-further elided n (previous_before elided n) e (previous_before-Nearest elided n))
  | inr e ↦ rw e ((omega arith, refl, e, λ k l h. absurd (omega arith)))
]

-- For a line of the file, the answer is the nearest line before it that is not blank, as its text and its
-- number, or the empty text and no number where all lines before it are blank.
pub get_previous_non_blank_line-Nearest :
    (elided : List Text) (linenum : ℕ)
    → Nearest elided linenum (get_previous_non_blank_line elided (some linenum))
get_previous_non_blank_line-Nearest elided linenum =
    unfold get_previous_non_blank_line in previous_before-Nearest elided linenum
