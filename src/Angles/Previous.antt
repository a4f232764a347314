-- ===== src/Angles/Previous.antt =====
-- The loop of `FindPreviousMatchingAngleBracket` ends.
use dmanix.Base.{
  ℕ, zero, suc, ◌+◌, ◌<◌, ◌≡◌, refl, sym, ◌∙◌, Bool, Option, some, List, [], ◌∷◌, Text, codes,
  length, take, reverse, Option-cases, inl, inr, arith,
}
use dmanix.Regex.{group, star, end}
use dmanix.Regex.Chars.{◌⨾◌, in_set, not_in_set, dot}
use dmanix.Regex.Search.{Found, search_in, group_text}
use dmanix.Regex.GroupFirst.{search_in-anchored, group_text-front}
use dmanix.Lines.{CleansedLines}
use dmanix.Angles.{
  previous_operator, Outcome, answer, go_on, previous_step, step_with, loop_on, find_previous,
  total_length, find_previous_matching_angle_bracket,
}

front-shorter :
    (line : Text) (m : Found)
    → search_in previous_operator line ≡ some m
    → length (group_text m 1) < length line
front-shorter line m h =
    group_text-front (star dot) (group 2 (in_set "<>(),;[]") ⨾ star (not_in_set "<>(),;[]") ⨾ end) 1
      line m refl refl refl (sym (search_in-anchored _ line) ∙ h)

loop_on_ends :
    (o : Outcome) (f : List Text → Option Bool)
    → ((stack : List Text) → (b : Bool) × (f stack ≡ some b))
    → (b : Bool) × (loop_on o f ≡ some b)
loop_on_ends (answer b) f h = (b, refl)
loop_on_ends (go_on stack) f h = h stack

find_previous_ends :
    (fuel : ℕ) (stack : List Text) (line : Text) (lines : List Text)
    → length line + total_length lines < fuel
    → (b : Bool) × (find_previous fuel stack line lines ≡ some b)
unfolding find_previous
find_previous_ends zero stack line lines h = absurd (omega arith)
find_previous_ends (suc fuel) stack line [] h =
    elim (Option-cases (search_in previous_operator line)) [
      | inl e ↦ rw (e, find_previous) (_, refl)
      | inr (m, e) ↦
          rw (e, find_previous)
            (loop_on_ends (step_with previous_step (group_text m 2) stack) _ (λ stack'.
              find_previous_ends fuel stack' (group_text m 1) []
                (omega (arith, h, front-shorter line m e))))
    ]
find_previous_ends (suc fuel) stack line (next ∷ others) h =
    elim (Option-cases (search_in previous_operator line)) [
      | inl e ↦ rw (e, find_previous) (find_previous_ends fuel stack next others (omega (arith, h)))
      | inr (m, e) ↦
          rw (e, find_previous)
            (loop_on_ends (step_with previous_step (group_text m 2) stack) _ (λ stack'.
              find_previous_ends fuel stack' (group_text m 1) (next ∷ others)
                (omega (arith, h, front-shorter line m e))))
    ]

-- FindPreviousMatchingAngleBracket ends on every file, at every line and for every prefix.
pub find_previous_matching_angle_bracket_ends :
    (clean : CleansedLines) (linenum : ℕ) (init_prefix : Text)
    → (b : Bool) × (find_previous_matching_angle_bracket clean linenum init_prefix ≡ some b)
unfolding find_previous_matching_angle_bracket
find_previous_matching_angle_bracket_ends clean linenum init_prefix =
    let lines = reverse (take linenum clean.elided) in
    find_previous_ends (suc (length init_prefix + total_length lines)) (codes ">" ∷ []) init_prefix
      lines (omega arith)
