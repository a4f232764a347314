-- ===== src/Angles/Scan.antt =====
-- The loop of `FindNextMatchingAngleBracket` as one scan over the characters that are left.
use dmanix.Base.{
  ℕ, zero, suc, ◌+◌, ◌<◌, ◌≡◌, refl, sym, ap, ◌∙◌, inl, inr, Bool, true, Option, none, some, List,
  [], ◌∷◌, Text, All, codes, length, mem_char, Option-cases, Bool-cases, arith, drop, if◌then◌else◌,
}
use dmanix.Regex.Search.{Found, search_in, match, group_text}
use dmanix.Regex.{star, group}
use dmanix.Regex.Chars.{◌⨾◌, not_in_set, in_set}
use dmanix.Regex.FirstOf.{
  NoNewline, split_at_first, split_at_first-NoNewline, split_at_first-shorter, first_match-none,
  first_match-some, search_in-start,
}
use dmanix.Lines.{CleansedLines}
use dmanix.Angles.{
  next_head, next_rest, Outcome, answer, go_on, next_step, step_with, loop_on, find_next,
  total_length, find_next_matching_angle_bracket,
}

abbrev pub is_operator : ℕ → Bool
is_operator c = mem_char c (codes "<>(),;[]")

abbrev pub behind : Outcome → (List Text → Outcome) → Outcome
behind (answer b) f = answer b
behind (go_on stack) f = f stack

-- One line: each operator in turn takes a step.
unfoldable pub scan_line : List Text → Text → Outcome
scan_line stack [] = go_on stack
scan_line stack (c ∷ s) =
    let other = scan_line stack s in
    let next = behind (step_with next_step (c ∷ []) stack) (λ stack'. scan_line stack' s) in
    if is_operator c then next else other

-- All lines; behind the last one the answer is true.
unfoldable pub scan_lines : Outcome → List Text → Bool
scan_lines (answer b) lines = b
scan_lines (go_on stack) [] = true
scan_lines (go_on stack) (line ∷ lines) = scan_lines (scan_line stack line) lines

scan_line-none :
    (stack : List Text) (s : Text)
    → split_at_first is_operator s ≡ none
    → scan_line stack s ≡ go_on stack
unfolding scan_line
scan_line-none stack [] h = refl
scan_line-none stack (c ∷ s) h = elim (Bool-cases (is_operator c)) [
  | inl e ↦ absurd (cc (let k : ◌≡◌ {A = Option (ℕ × Text)} (some (c, s)) none = rw e at h in k))
  | inr e ↦ rw e (scan_line-none stack s (rw e at h))
]

scan_line-some :
    (stack : List Text) (s : Text) (x : ℕ) (t : Text)
    → split_at_first is_operator s ≡ some (x, t)
    → scan_line stack s ≡ behind (step_with next_step (x ∷ []) stack) (λ stack'. scan_line stack' t)
unfolding scan_line
scan_line-some stack [] x t h = absurd (cc)
scan_line-some stack (c ∷ s) x t h = elim (Bool-cases (is_operator c)) [
  | inl e ↦
      let k : ◌≡◌ {A = Option (ℕ × Text)} (some (c, s)) (some (x, t)) = rw e at h in
      let same : c ≡ x = ground arith in
      let rest : s ≡ t = ground arith in rw e (rw (same, rest) refl)
  | inr e ↦ rw e (scan_line-some stack s x t (rw e at h))
]

-- The search of the loop is a match at the front of the line.
search_first :
    (line : Text) → search_in (next_head ⨾ next_rest) line ≡ match (next_head ⨾ next_rest) line
search_first line =
    search_in-start (star (not_in_set "<>(),;[]") ⨾ group 1 (in_set "<>(),;[]")) next_rest line

-- Where a line holds no operator, the loop goes on with the next one.
next_line :
    (fuel : ℕ) (stack : List Text) (line next : Text) (others : List Text)
    → search_in (next_head ⨾ next_rest) line ≡ none
    → find_next (suc fuel) stack line (next ∷ others) ≡ find_next fuel stack next others
unfolding find_next
next_line fuel stack line next others e = rw (e, find_next) refl

last_line :
    (fuel : ℕ) (stack : List Text) (line : Text)
    → search_in (next_head ⨾ next_rest) line ≡ none
    → find_next (suc fuel) stack line [] ≡ some true
unfolding find_next
last_line fuel stack line e = rw (e, find_next) refl

-- An operator takes a step, and the loop goes on behind it.
next_operator :
    (fuel : ℕ) (stack : List Text) (line : Text) (lines : List Text) (m : Found) (x t : Text)
    → search_in (next_head ⨾ next_rest) line ≡ some m
    → group_text m 1 ≡ x
    → group_text m 2 ≡ t
    → find_next (suc fuel) stack line lines
      ≡ loop_on (step_with next_step x stack) (λ stack'. find_next fuel stack' t lines)
unfolding find_next
next_operator fuel stack line lines m x t e g1 g2 = rw (e, find_next) (rw (g1, g2) refl)

step_loop :
    (o : Outcome) (f : List Text → Option Bool) (g : List Text → Outcome) (lines : List Text)
    → ((stack : List Text) → f stack ≡ some (scan_lines (g stack) lines))
    → loop_on o f ≡ some (scan_lines (behind o g) lines)
unfolding scan_lines
step_loop (answer b) f g lines h = refl
step_loop (go_on stack) f g lines h = h stack

-- With fuel for every character and every line, the loop gives what the scan gives.
find_next-scan :
    (fuel : ℕ) (stack : List Text) (line : Text) (lines : List Text)
    → NoNewline line
    → All NoNewline lines
    → length line + total_length lines < fuel
    → find_next fuel stack line lines ≡ some (scan_lines (scan_line stack line) lines)
unfolding scan_lines
find_next-scan zero stack line lines n ns h = absurd (omega arith)
find_next-scan (suc fuel) stack line lines n ns h =
    elim (Option-cases (split_at_first is_operator line)) [
      | inl e ↦
          let missed = search_first line ∙ first_match-none is_operator line n e in
          go lines ns h missed (scan_line-none stack line e)
            (λ next others. find_next-scan fuel stack next others)
      | inr ((x, t), e) ↦
          let (m, found, g1, g2) = first_match-some is_operator line x t n e in
          let fewer = split_at_first-shorter is_operator line x t e in
          let round =
            next_operator fuel stack line lines m (x ∷ []) t (search_first line ∙ found) g1 g2 in
          round
          ∙ step_loop (step_with next_step (x ∷ []) stack) _ (λ stack'. scan_line stack' t) lines
              (λ stack'.
                find_next-scan fuel stack' t lines
                  (split_at_first-NoNewline is_operator line x t n e) ns (omega (arith, fewer, h)))
          ∙ ap (λ o. some (scan_lines o lines)) (sym (scan_line-some stack line x t e))
    ]
  where
    go :
        (lines : List Text)
        → All NoNewline lines
        → length line + total_length lines < suc fuel
        → search_in (next_head ⨾ next_rest) line ≡ none
        → scan_line stack line ≡ go_on stack
        → ((next : Text) (others : List Text)
            → NoNewline next
            → All NoNewline others
            → length next + total_length others < fuel
            → find_next fuel stack next others ≡ some (scan_lines (scan_line stack next) others))
        → find_next (suc fuel) stack line lines ≡ some (scan_lines (scan_line stack line) lines)
    go [] ns h missed e ih = last_line fuel stack line missed ∙ rw e refl
    go (next ∷ others) ns h missed e ih =
        next_line fuel stack line next others missed
        ∙ ih next others ns.0 ns.1 (omega (arith, h))
        ∙ rw e refl

-- On lines without line feeds the function has an answer, with the fuel it is given: that of the scan over
-- the characters of the text and of the lines behind it.
pub find_next_matching_angle_bracket-scan :
    (clean : CleansedLines) (linenum : ℕ) (init_suffix : Text)
    → NoNewline init_suffix
    → All NoNewline (drop (linenum + 1) clean.elided)
    → find_next_matching_angle_bracket clean linenum init_suffix
      ≡ some (scan_lines (scan_line (codes "<" ∷ []) init_suffix) (drop (linenum + 1) clean.elided))
find_next_matching_angle_bracket-scan clean linenum init_suffix n ns =
    unfold find_next_matching_angle_bracket in
    find_next-scan (suc (length init_suffix + total_length (drop (linenum + 1) clean.elided)))
      (codes "<" ∷ []) init_suffix (drop (linenum + 1) clean.elided) n ns (omega arith)
