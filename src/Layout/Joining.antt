-- ===== src/Layout/Joining.antt =====
-- When the loop of `CheckBraces` that joins lines ends.
use dmanix.Base.{
  ℕ, zero, suc, ◌≤◌, ◌<◌, ◌≡◌, refl, ◌⊎◌, inl, inr, true, false, Option, none, some, List, [], ◌++◌,
  Text, get_or, count_char, ◌==◌, Bool-cases, arith,
}
use dmanix.Regex.Search.{matches}
use dmanix.Lint.{Action}
use dmanix.Lines.{CleansedLines}
use dmanix.Layout.{
  is_blank_line, previous_before, get_previous_non_blank_line, goes_on, re_indented_braces,
  join_lines, finish_braces, check_braces,
}
use dmanix.Layout.Previous.{BlankBetween, Nearest, previous_before-Nearest}

-- Behind a semicolon the loop stops.
goes_on-semicolon :
    (line prevline : Text) → (count_char b';' prevline == 0) ≡ false → goes_on line prevline ≡ false
unfolding goes_on
goes_on-semicolon line prevline h = ground arith

-- The loop has a result, from a given line on.
abbrev Ends : ℕ → List Text → Text → Option ℕ → Type 0
Ends fuel elided line n = (joined : Text) × (join_lines fuel elided line n ≡ some joined)

compare_lines : (j k : ℕ) → (j < k) ⊎ ((j ≡ k) ⊎ (k < j))
compare_lines j k = ground arith

-- One round of the loop, where the previous line is known.
round-Ends :
    (fuel : ℕ) (elided : List Text) (line prev : Text) (before : Option ℕ) (n : ℕ)
    → previous_before elided n ≡ (prev, before)
    → (goes_on line prev ≡ false) ⊎ Ends fuel elided (prev ++ line) before
    → Ends (suc fuel) elided line (some n)
unfolding join_lines get_previous_non_blank_line
round-Ends fuel elided line prev before n e (inl s) = (line, rw e (rw s refl))
round-Ends fuel elided line prev before n e (inr (joined, q)) =
    elim (Bool-cases (goes_on line prev)) [
      | inl g ↦ (joined, rw e (rw (g, q) refl))
      | inr g ↦ (line, rw e (rw g refl))
    ]

join_lines-Ends :
    (fuel : ℕ) (elided : List Text) (line : Text) (n k : ℕ)
    → k < n
    → n ≤ fuel
    → is_blank_line (get_or elided k []) ≡ false
    → (count_char b';' (get_or elided k []) == 0) ≡ false
    → Ends fuel elided line (some n)
join_lines-Ends zero elided line n k h e b s = absurd (omega arith)
join_lines-Ends (suc fuel) elided line n k h e b s =
    go (previous_before elided n) refl (previous_before-Nearest elided n)
      (λ line' j l. join_lines-Ends fuel elided line' j k l)
  where
    go :
        (r : Text × Option ℕ)
        → previous_before elided n ≡ r
        → Nearest elided n r
        → ((line' : Text) (j : ℕ)
            → k < j
            → j ≤ fuel
            → is_blank_line (get_or elided k []) ≡ false
            → (count_char b';' (get_or elided k []) == 0) ≡ false
            → Ends fuel elided line' (some j))
        → Ends (suc fuel) elided line (some n)
    go (prev, none) p (q, blank) ih = absurd (cc (blank k (omega arith) h, b))
    go (prev, some j) p (l, q, f, blank) ih = elim (compare_lines j k) [
      | inl m ↦ absurd (cc (blank k (omega (arith, m)) h, b))
      | inr (inl m) ↦
          round-Ends fuel elided line prev (some j) n p
            (inl (goes_on-semicolon line prev (rw (q, m) s)))
      | inr (inr m) ↦
          round-Ends fuel elided line prev (some j) n p
            (inr (ih (prev ++ line) j m (omega (arith, l, e)) b s))
    ]

-- Above the first line the loop goes round with nothing in front of the line.
stuck_at_top :
    (fuel : ℕ) (elided : List Text) (line : Text)
    → matches re_indented_braces line ≡ true
    → join_lines fuel elided line none ≡ none
unfolding join_lines get_previous_non_blank_line goes_on count_char
stuck_at_top zero elided line m = refl
stuck_at_top (suc fuel) elided line m = rw m (stuck_at_top fuel elided line m)

stuck_below_blank :
    (fuel : ℕ) (elided : List Text) (line : Text) (n : ℕ)
    → matches re_indented_braces line ≡ true
    → BlankBetween elided 0 n
    → join_lines fuel elided line (some n) ≡ none
unfolding join_lines get_previous_non_blank_line goes_on count_char
stuck_below_blank zero elided line n m b = refl
stuck_below_blank (suc fuel) elided line n m b =
    go (previous_before elided n) refl (previous_before-Nearest elided n)
  where
    go :
        (r : Text × Option ℕ)
        → previous_before elided n ≡ r
        → Nearest elided n r
        → join_lines (suc fuel) elided line (some n) ≡ none
    go (prev, none) p (q, blank) = rw p (rw q (rw m (stuck_at_top fuel elided line m)))
    go (prev, some j) p (l, q, f, blank) = absurd (cc (q, f, b j (omega arith) l))

not_indented :
    (fuel : ℕ) (elided : List Text) (line : Text) (n : ℕ)
    → matches re_indented_braces line ≡ false
    → n < fuel
    → join_lines fuel elided line (some n) ≡ some line
unfolding join_lines get_previous_non_blank_line goes_on
not_indented zero elided line n m f = absurd (omega arith)
not_indented (suc fuel) elided line n m f = rw m refl

finished :
    (filename : Text) (linenum : ℕ) (before : List Action) (o : Option Text) (joined : Text)
    → o ≡ some joined
    → (actions : List Action) × (finish_braces filename linenum before o ≡ some actions)
finished filename linenum before none joined e = absurd (cc)
finished filename linenum before (some line) joined e = (_, refl)

-- With fuel for every line before it, the check of a line ends, where some line before it holds a semicolon,
-- or where the line itself is not an indented pair of braces with a semicolon.
pub check_braces_ends :
    (fuel : ℕ) (filename : Text) (clean : CleansedLines) (linenum : ℕ)
    → linenum < fuel
    → ((k : ℕ) × (k < linenum)
        × (is_blank_line (get_or clean.elided k []) ≡ false)
        × ((count_char b';' (get_or clean.elided k []) == 0) ≡ false))
      ⊎ (matches re_indented_braces (get_or clean.elided linenum []) ≡ false)
    → (actions : List Action) × (check_braces fuel filename clean linenum ≡ some actions)
unfolding check_braces
check_braces_ends fuel filename clean linenum f (inl (k, h, b, s)) =
    let line = get_or clean.elided linenum [] in
    let (joined, e) = join_lines-Ends fuel clean.elided line linenum k h (omega arith) b s in
    finished filename linenum _ (join_lines fuel clean.elided line (some linenum)) joined e
check_braces_ends fuel filename clean linenum f (inr m) =
    let line = get_or clean.elided linenum [] in
    finished filename linenum _ (join_lines fuel clean.elided line (some linenum)) line
      (not_indented fuel clean.elided line linenum m f)

-- The check never ends on an indented pair of braces with a semicolon, where all lines before it are blank:
-- whatever the fuel, there is no result.
pub check_braces-BlankBetween :
    (fuel : ℕ) (filename : Text) (clean : CleansedLines) (linenum : ℕ)
    → matches re_indented_braces (get_or clean.elided linenum []) ≡ true
    → BlankBetween clean.elided 0 linenum
    → check_braces fuel filename clean linenum ≡ none
unfolding check_braces
check_braces-BlankBetween fuel filename clean linenum m b =
    rw (stuck_below_blank fuel clean.elided (get_or clean.elided linenum []) linenum m b) refl
