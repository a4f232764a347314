-- ===== src/Angles/Nested.antt =====
-- The scan on well nested text.
use dmanix.Base.{
  ℕ, ◌+◌, ◌≡◌, ◌⊎◌, refl, ap, ◌∙◌, ◌||◌, inl, inr, Bool, true, false, some, List, [], ◌∷◌, ◌++◌,
  append_assoc, Text, All, codes, text_eq, mem_text, mem_char, drop, ◌==◌, Bool-cases, arith,
}
use dmanix.Regex.FirstOf.{NoNewline}
use dmanix.Lines.{CleansedLines}
use dmanix.Angles.{Outcome, answer, next_step, find_next_matching_angle_bracket}
use dmanix.Angles.Scan.{is_operator, scan_line, scan_lines, find_next_matching_angle_bracket-scan}

abbrev is_opening : ℕ → Bool
is_opening c = c == b'(' || c == b'['

abbrev is_closing : ℕ → Bool
is_closing c = c == b')' || c == b']'

abbrev is_mark : ℕ → Bool
is_mark c = c == b'>' || c == b',' || c == b';'

-- Text whose brackets are in pairs: directly between angle brackets (`true`), where `,` and `;` do not
-- stand, or between others (`false`), where `,`, `;` and `>` may.
pub data Nested : Bool → Text → Type 0 where
  n_nil : {b : Bool} → Nested b []
  n_plain : {b : Bool} {c : ℕ} {s : Text} → is_operator c ≡ false → Nested b s → Nested b (c ∷ s)
  n_mark : {c : ℕ} {s : Text} → is_mark c ≡ true → Nested false s → Nested false (c ∷ s)
  n_angle : {b : Bool} {t s : Text} → Nested true t → Nested b s → Nested b (b'<' ∷ t ++ b'>' ∷ s)
  n_bracket :
      {b : Bool} (o c : ℕ) {t s : Text}
      → is_opening o ≡ true
      → Nested false t
      → is_closing c ≡ true
      → Nested b s
      → Nested b (o ∷ t ++ c ∷ s)

-- The top of the stack for text between angle brackets, and between others.
abbrev TopIs : Bool → ℕ → Type 0
TopIs true top = top ≡ b'<'
TopIs false top = is_opening top ≡ true

-- Where the top of the stack is `top`, a character of each sort takes this step.
plain_step :
    (c : ℕ) (stack : List Text) (s : Text)
    → is_operator c ≡ false
    → scan_line stack (c ∷ s) ≡ scan_line stack s
unfolding scan_line
plain_step c stack s e = rw e refl

opening_char : (c : ℕ) → is_opening c ≡ true → (c ≡ b'(') ⊎ (c ≡ b'[')
opening_char c h = ground arith

closing_char : (c : ℕ) → is_closing c ≡ true → (c ≡ b')') ⊎ (c ≡ b']')
closing_char c h = ground arith

mark_char : (c : ℕ) → is_mark c ≡ true → (c ≡ b'>') ⊎ ((c ≡ b',') ⊎ (c ≡ b';'))
mark_char c h = ground arith

-- The top of the stack that is not `<`.
opening_not_angle : (top : ℕ) → is_opening top ≡ true → (top == b'<') ≡ false
opening_not_angle top h = ground arith

angle_step :
    (top : ℕ) (stack : List Text) (s : Text)
    → scan_line ((top ∷ []) ∷ stack) (b'<' ∷ s) ≡ scan_line ((b'<' ∷ []) ∷ (top ∷ []) ∷ stack) s
unfolding scan_line next_step text_eq mem_text mem_char
angle_step top stack s = elim (Bool-cases (top == b'<')) [ inl e ↦ rw e refl | inr e ↦ rw e refl ]

open_step :
    (c top : ℕ) (stack : List Text) (s : Text)
    → is_opening c ≡ true
    → scan_line ((top ∷ []) ∷ stack) (c ∷ s) ≡ scan_line ((c ∷ []) ∷ (top ∷ []) ∷ stack) s
unfolding scan_line next_step text_eq mem_text mem_char
open_step c top stack s h = elim (opening_char c h) [
  | inl q ↦ rw q (elim (Bool-cases (top == b'<')) [ inl e ↦ rw e refl | inr e ↦ rw e refl ])
  | inr q ↦ rw q (elim (Bool-cases (top == b'<')) [ inl e ↦ rw e refl | inr e ↦ rw e refl ])
]

close_step :
    (c top : ℕ) (stack : List Text) (s : Text)
    → is_closing c ≡ true
    → is_opening top ≡ true
    → scan_line ((top ∷ []) ∷ stack) (c ∷ s) ≡ scan_line stack s
unfolding scan_line next_step text_eq mem_text mem_char
close_step c top stack s h o = elim (closing_char c h) [
  | inl q ↦ rw (q, opening_not_angle top o) refl
  | inr q ↦ rw (q, opening_not_angle top o) refl
]

mark_step :
    (c top : ℕ) (stack : List Text) (s : Text)
    → is_mark c ≡ true
    → is_opening top ≡ true
    → scan_line ((top ∷ []) ∷ stack) (c ∷ s) ≡ scan_line ((top ∷ []) ∷ stack) s
unfolding scan_line next_step text_eq mem_text mem_char
mark_step c top stack s h o = elim (mark_char c h) [
  | inl q ↦ rw (q, opening_not_angle top o) refl
  | inr (inl q) ↦ rw (q, opening_not_angle top o) refl
  | inr (inr q) ↦ rw (q, opening_not_angle top o) refl
]

end_step :
    (below : Text) (stack : List Text) (s : Text)
    → scan_line ((b'<' ∷ []) ∷ below ∷ stack) (b'>' ∷ s) ≡ scan_line (below ∷ stack) s
unfolding scan_line next_step text_eq mem_text mem_char
end_step below stack s = refl

-- Well nested text leaves the stack as it is.
skip-Nested :
    (b : Bool) (t s : Text) (top : ℕ) (stack : List Text)
    → Nested b t
    → TopIs b top
    → scan_line ((top ∷ []) ∷ stack) (t ++ s) ≡ scan_line ((top ∷ []) ∷ stack) s
skip-Nested b t s top stack n_nil h = refl
skip-Nested b t s top stack (n_plain {c = c} {s = u} e n) h =
    plain_step c ((top ∷ []) ∷ stack) (u ++ s) e ∙ skip-Nested b u s top stack n h
skip-Nested b t s top stack (n_mark {c = c} {s = u} e n) h =
    mark_step c top stack (u ++ s) e h ∙ skip-Nested false u s top stack n h
skip-Nested b t s top stack (n_angle {t = v} {s = u} n k) h =
    angle_step top stack ((v ++ b'>' ∷ u) ++ s)
    ∙ ap (scan_line ((b'<' ∷ []) ∷ (top ∷ []) ∷ stack)) (append_assoc v (b'>' ∷ u) s)
    ∙ skip-Nested true v (b'>' ∷ u ++ s) b'<' ((top ∷ []) ∷ stack) n refl
    ∙ end_step (top ∷ []) stack (u ++ s)
    ∙ skip-Nested b u s top stack k h
skip-Nested b t s top stack (n_bracket o c {t = v} {s = u} e n f k) h =
    open_step o top stack ((v ++ c ∷ u) ++ s) e
    ∙ ap (scan_line ((o ∷ []) ∷ (top ∷ []) ∷ stack)) (append_assoc v (c ∷ u) s)
    ∙ skip-Nested false v (c ∷ u ++ s) o ((top ∷ []) ∷ stack) n e
    ∙ close_step c o ((top ∷ []) ∷ stack) (u ++ s) f e
    ∙ skip-Nested b u s top stack k h

-- What may stand behind the text between angle brackets, and whether it shows that `<` was a bracket.
abbrev pub is_ending : ℕ → Bool
is_ending c = is_closing c || is_mark c

abbrev pub shows_bracket : ℕ → Bool
shows_bracket c = c == b'>' || c == b','

ending_char : (c : ℕ) → is_ending c ≡ true → (is_closing c ≡ true) ⊎ (is_mark c ≡ true)
ending_char c h = ground arith

ending_step :
    (c : ℕ) (s : Text)
    → is_ending c ≡ true
    → scan_line (codes "<" ∷ []) (c ∷ s) ≡ answer (shows_bracket c)
unfolding scan_line next_step text_eq mem_text mem_char
ending_step c s h = elim (ending_char c h) [
  | inl k ↦ elim (closing_char c k) [ inl q ↦ rw q refl | inr q ↦ rw q refl ]
  | inr k ↦ elim (mark_char c k) [
    | inl q ↦ rw q refl
    | inr (inl q) ↦ rw q refl
    | inr (inr q) ↦ rw q refl
  ]
]

answered : (o : Outcome) (b : Bool) (lines : List Text) → o ≡ answer b → scan_lines o lines ≡ b
unfolding scan_lines
answered o b lines e = rw e refl

-- On lines without line feeds, where well nested text behind the `<` is followed by `>` or `,`, the answer is
-- that there is a matching bracket, and where it is followed by `;`, `)` or `]`, that there is none.
pub find_next_matching_angle_bracket-Nested :
    (clean : CleansedLines) (linenum : ℕ) (t rest : Text) (c : ℕ)
    → NoNewline (t ++ c ∷ rest)
    → All NoNewline (drop (linenum + 1) clean.elided)
    → Nested true t
    → is_ending c ≡ true
    → find_next_matching_angle_bracket clean linenum (t ++ c ∷ rest) ≡ some (shows_bracket c)
find_next_matching_angle_bracket-Nested clean linenum t rest c n ns k e =
    find_next_matching_angle_bracket-scan clean linenum (t ++ c ∷ rest) n ns
    ∙ ap (λ (b : Bool). some b)
        (answered (scan_line (codes "<" ∷ []) (t ++ c ∷ rest)) (shows_bracket c) _
          (skip-Nested true t (c ∷ rest) b'<' [] k refl ∙ ending_step c rest e))
