-- ===== src/Brackets/Close.antt =====
-- Where the loop of `CloseExpression` ends.
use mathlib.Core.List.{flatten}
use dmanix.Base.{
  ℕ, suc, ◌+◌, ◌-◌, ◌≤◌, ◌<◌, ◌≡◌, ◌≢◌, ◌⊎◌, refl, sym, ap, ◌∙◌, inl, inr, Option, none, some, List,
  [], ◌∷◌, Text, count_char, take, length, length-append, Bool-cases, Option-cases, map_option, leb,
  leb→le, le→leb, lt→leb, arith,
}
use dmanix.Base.Int.{pos, ◌+ℤ◌}
use dmanix.Brackets.{scan_end, Closed, open_count, close_later}
use dmanix.Brackets.Scan.{scan_none-total}
use dmanix.Brackets.Across.{scan_front, scan_back, open_left, open_test, scan_ends, find_at_zero}

-- A later line and a position on it, or the number of lines and none.
abbrev pub Located : ℕ → ℕ → List Text → Closed → Type 0
Located num_lines linenum xs r =
    ((r.linenum ≡ num_lines) × (r.end_pos ≡ none))
    ⊎ ((k : ℕ) × (linenum < r.linenum) × (r.linenum ≤ linenum + length xs) × (r.end_pos ≡ some k))

abbrev pub found_here : Text → ℕ → Option ℕ → Closed
found_here x linenum o = record { line = x; linenum = linenum + 1; end_pos = o }

step_here :
    (num_lines linenum : ℕ) (line : Text) (n a z : ℕ) (x : Text) (xs : List Text)
    → suc n + count_char a x ≤ count_char z x
    → close_later num_lines linenum line (pos (suc n)) a z (x ∷ xs)
      ≡ found_here x linenum (scan_end (pos (suc n)) a z x)
unfolding close_later
step_here num_lines linenum line n a z x xs h =
    rw (open_test n a z x, le→leb _ _ h) (rw (find_at_zero (pos (suc n)) a z x))

step_on :
    (num_lines linenum : ℕ) (line : Text) (n m a z : ℕ) (x : Text) (xs : List Text)
    → count_char z x < suc n + count_char a x
    → pos (suc n) +ℤ open_count a z x ≡ pos (suc m)
    → close_later num_lines linenum line (pos (suc n)) a z (x ∷ xs)
      ≡ close_later num_lines (linenum + 1) x (pos (suc m)) a z xs
unfolding close_later
step_on num_lines linenum line n m a z x xs h e = rw (open_test n a z x, lt→leb _ _ h) (rw e)

later :
    (num_lines linenum : ℕ) (x : Text) (xs : List Text) (r : Closed)
    → Located num_lines (linenum + 1) xs r
    → Located num_lines linenum (x ∷ xs) r
later num_lines linenum x xs r (inl h) = inl h
later num_lines linenum x xs r (inr (k, l, u, e)) = inr (k, omega arith, omega arith, e)

-- From a positive depth, the search over the later lines answers with the number of lines and no
-- position, or with one of those lines and a position on it: never with a line and no position.
pub close_later-Located :
    (num_lines linenum : ℕ) (line : Text) (n a z : ℕ) (xs : List Text)
    → Located num_lines linenum xs (close_later num_lines linenum line (pos (suc n)) a z xs)
close_later-Located num_lines linenum line n a z [] = inl (unfold close_later in (refl, refl))
close_later-Located num_lines linenum line n a z (x ∷ xs) =
    elim (Bool-cases (leb (suc n + count_char a x) (count_char z x))) [
      | inl t ↦
          let (k, e) = scan_ends n a z x (leb→le _ _ t) in
          rw (step_here num_lines linenum line n a z x xs (leb→le _ _ t))
            (inr (k, omega arith, omega arith, e))
      | inr t ↦
          let less : count_char z x < suc n + count_char a x = ground arith in
          let (m, e, q) = open_left n a z x less in
          rw (step_on num_lines linenum line n m a z x xs less e) (
            later num_lines linenum x xs
              (close_later num_lines (linenum + 1) x (pos (suc m)) a z xs)
              (close_later-Located num_lines (linenum + 1) x m a z xs))
    ]

-- The lines behind the first one on which the search may end: no line before it, and not it either,
-- opens more brackets than it closes after the depth has been used up.
abbrev pub NoneReopens : ℕ → ℕ → ℕ → List Text → Type 0
NoneReopens n a z [] = Unit
NoneReopens n a z (x ∷ xs) =
    ((k : ℕ) → scan_end (pos (suc n)) a z x ≡ some k → suc n + count_char a x ≤ count_char z x)
    × ((m : ℕ) → suc n + count_char a x ≡ suc m + count_char z x → NoneReopens m a z xs)

-- The position in the text of the lines behind line `linenum`.
abbrev pub offset_of : ℕ → List Text → Closed → Option ℕ
offset_of linenum xs r =
    map_option (λ k. length (flatten (take (r.linenum - (linenum + 1)) xs)) + k) r.end_pos

offset_here :
    (linenum : ℕ) (x : Text) (xs : List Text) (o : Option ℕ)
    → offset_of linenum (x ∷ xs) (found_here x linenum o) ≡ o
offset_here linenum x xs o =
    let e : linenum + 1 - (linenum + 1) ≡ 0 = omega arith in rw e (zero_off o)
  where
    zero_off : (o : Option ℕ) → map_option (λ k. length (flatten (take 0 (x ∷ xs))) + k) o ≡ o
    zero_off none = refl
    zero_off (some k) = unfold flatten in ap (λ (j : ℕ). some j) (omega arith)

offset_later :
    (num_lines linenum : ℕ) (x : Text) (xs : List Text) (r : Closed)
    → Located num_lines (linenum + 1) xs r
    → offset_of linenum (x ∷ xs) r ≡ map_option (λ k. length x + k) (offset_of (linenum + 1) xs r)
offset_later num_lines linenum x xs r (inl h) = rw h.1
offset_later num_lines linenum x xs r (inr (k, l, u, e)) =
    let d : r.linenum - (linenum + 1) ≡ suc (r.linenum - (linenum + 1 + 1)) = omega arith in
    rw (e, d)
      (unfold flatten in
        ap (λ (j : ℕ). some j)
          (omega (arith, length-append x (flatten (take (r.linenum - (linenum + 1 + 1)) xs)))))

-- Where no line reopens, the search over the later lines finds the place that one scan of their joined
-- text finds, and finds none where that scan finds none.
pub close_later-scan :
    (num_lines linenum : ℕ) (line : Text) (n a z : ℕ) (xs : List Text)
    → a ≢ z
    → NoneReopens n a z xs
    → offset_of linenum xs (close_later num_lines linenum line (pos (suc n)) a z xs)
      ≡ scan_end (pos (suc n)) a z (flatten xs)
close_later-scan num_lines linenum line n a z [] ne h = unfold close_later scan_end flatten in refl
close_later-scan num_lines linenum line n a z (x ∷ xs) ne h =
    elim (Option-cases (scan_end (pos (suc n)) a z x)) [
      | inr (k, e) ↦ rw (step_here num_lines linenum line n a z x xs (h.0 k e)) (
          offset_here linenum x xs (scan_end (pos (suc n)) a z x)
          ∙ e
          ∙ sym (unfold flatten in scan_front (pos (suc n)) a z x (flatten xs) k e))
      | inl e ↦
          let less = scan_none-total n a z x e in
          let (m, q, c) = open_left n a z x less in
          rw (step_on num_lines linenum line n m a z x xs less q) (
            offset_later num_lines linenum x xs
              (close_later num_lines (linenum + 1) x (pos (suc m)) a z xs)
              (close_later-Located num_lines (linenum + 1) x m a z xs)
            ∙ ap (map_option (λ k. length x + k))
                (close_later-scan num_lines (linenum + 1) x m a z xs ne (h.1 m c))
            ∙ sym (unfold flatten in scan_back n m a z x (flatten xs) ne e c))
    ]

-- Where a line closes the expression and then opens at least as much again, the search answers with a line behind it
-- and a position there, or with the number of lines and none, though one scan of the joined text stops on that line.
pub close_later-reopened :
    (num_lines linenum : ℕ) (line : Text) (n a z k : ℕ) (x : Text) (xs : List Text)
    → scan_end (pos (suc n)) a z x ≡ some k
    → count_char z x < suc n + count_char a x
    → (scan_end (pos (suc n)) a z (flatten (x ∷ xs)) ≡ some k)
      × Located num_lines
          (linenum + 1)
          xs
          (close_later num_lines linenum line (pos (suc n)) a z (x ∷ xs))
close_later-reopened num_lines linenum line n a z k x xs e less =
    let (m, q, c) = open_left n a z x less in
    (
      unfold flatten in scan_front (pos (suc n)) a z x (flatten xs) k e,
      rw (step_on num_lines linenum line n m a z x xs less q)
          (close_later-Located num_lines (linenum + 1) x m a z xs),
    )
