-- ===== src/Comments/Cleared.antt =====
-- The loop of `RemoveMultiLineComments` ends, and what it leaves.
use dmanix.Base.{
  ℕ, zero, suc, ◌+◌, ◌-◌, ◌≤◌, ◌<◌, ◌≡◌, ◌⊎◌, refl, ◌∙◌, inl, inr, Bool, true, false, ◌&&◌, some,
  List, [], Text, length, length-drop, drop, get_or, leb, ltb, Bool-cases, arith, if◌then◌else◌,
}
use dmanix.Lint.{Action}
use dmanix.Comments.{
  begins_comment, ends_comment, first_index, find_next_multi_line_comment_start,
  find_next_multi_line_comment_end, dummy, remove_multi_line_comments_from_range, no_end_found,
  remove_from, remove_multi_line_comments,
}
use dmanix.Comments.Scan.{
  first_index_fails, first_index_passes, get_or-drop, length-clear_lines, get_or-clear_lines,
}

-- No line below `n` opens a comment that goes beyond it.
abbrev pub ClearBelow : ℕ → List Text → Type 0
ClearBelow n lines = (j : ℕ) → j < n → begins_comment (get_or lines j []) ≡ false

-- A line is as it was, or it is the dummy comment.
abbrev pub KeptOrDummy : List Text → List Text → Type 0
KeptOrDummy before after =
    (j : ℕ) → (get_or after j [] ≡ get_or before j []) ⊎ (get_or after j [] ≡ dummy)

-- Line `b` opens a comment that no line from there on ends.
abbrev pub Unclosed : ℕ → List Text → Type 0
Unclosed b lines =
    (begins_comment (get_or lines b []) ≡ true)
    × ((j : ℕ) → b ≤ j → j < length lines → ends_comment (get_or lines j []) ≡ false)

scan_fails :
    (p : Text → Bool) (lines : List Text) (i j : ℕ)
    → i ≤ j
    → j < i + first_index p (drop i lines)
    → p (get_or lines j []) ≡ false
scan_fails p lines i j l h =
    let e : i + (j - i) ≡ j = omega arith in
    let k : p (get_or (drop i lines) (j - i) []) ≡ false =
      first_index_fails p (drop i lines) (j - i) (omega arith) in
    rw (get_or-drop lines i (j - i), e) at k

scan_passes :
    (p : Text → Bool) (lines : List Text) (i : ℕ)
    → i + first_index p (drop i lines) < length lines
    → p (get_or lines (i + first_index p (drop i lines)) []) ≡ true
scan_passes p lines i h =
    rw (← get_or-drop lines i (first_index p (drop i lines)))
      (first_index_passes p (drop i lines) (omega (arith, length-drop i lines)))

dummy_clear : begins_comment dummy ≡ false
unfolding begins_comment
dummy_clear = refl

-- One round: the range from the start of a comment to its end is cleared.
abbrev cleared : List Text → ℕ → ℕ → List Text
cleared lines b e = remove_multi_line_comments_from_range lines b (e + 1)

length-cleared : (lines : List Text) (b e : ℕ) → length (cleared lines b e) ≡ length lines
unfolding remove_multi_line_comments_from_range
length-cleared lines b e = length-clear_lines (e + 1 - b) b lines

get_or-cleared :
    (lines : List Text) (b e j : ℕ)
    → b ≤ e
    → e < length lines
    → get_or (cleared lines b e) j []
      ≡ (if leb b j && ltb j (b + (e + 1 - b)) then dummy else get_or lines j [])
unfolding remove_multi_line_comments_from_range
get_or-cleared lines b e j h l = get_or-clear_lines (e + 1 - b) b lines j (omega arith)

cleared-KeptOrDummy :
    (lines : List Text) (b e : ℕ) → b ≤ e → e < length lines → KeptOrDummy lines (cleared lines b e)
cleared-KeptOrDummy lines b e h l j = ground (arith, get_or-cleared lines b e j)

cleared-ClearBelow :
    (lines : List Text) (b e : ℕ)
    → b ≤ e
    → e < length lines
    → ClearBelow b lines
    → ClearBelow (e + 1) (cleared lines b e)
cleared-ClearBelow lines b e h l c j lt = elim (Bool-cases (leb b j && ltb j (b + (e + 1 - b)))) [
  | inl t ↦ rw (get_or-cleared lines b e j h l, t) dummy_clear
  | inr t ↦ rw (get_or-cleared lines b e j h l, t) (c j (ground arith))
]

KeptOrDummy-trans : (a b c : List Text) → KeptOrDummy a b → KeptOrDummy b c → KeptOrDummy a c
KeptOrDummy-trans a b c p q j = ground (arith, p j, q j)

-- What the loop gives: the lines, and a report exactly of the comment that does not end.
abbrev pub Outcome : Text → List Text → List Text → List Action → Type 0
Outcome filename before after actions =
    (length after ≡ length before)
    × KeptOrDummy before after
    × (((actions ≡ []) × ClearBelow (length after) after)
        ⊎ ((b : ℕ) × (actions ≡ no_end_found filename b) × Unclosed b after))

start_clear :
    (lines : List Text) (lineix : ℕ)
    → ClearBelow lineix lines
    → ClearBelow (find_next_multi_line_comment_start lines lineix) lines
unfolding find_next_multi_line_comment_start
start_clear lines lineix c j h = elim (Bool-cases (ltb j lineix)) [
  | inl t ↦ c j (ground arith)
  | inr t ↦ scan_fails begins_comment lines lineix j (ground arith) h
]

start_begins :
    (lines : List Text) (lineix : ℕ)
    → find_next_multi_line_comment_start lines lineix < length lines
    → begins_comment (get_or lines (find_next_multi_line_comment_start lines lineix) []) ≡ true
unfolding find_next_multi_line_comment_start
start_begins lines lineix h = scan_passes begins_comment lines lineix h

end_fails :
    (lines : List Text) (b j : ℕ)
    → b ≤ j
    → j < find_next_multi_line_comment_end lines b
    → ends_comment (get_or lines j []) ≡ false
unfolding find_next_multi_line_comment_end
end_fails lines b j l h = scan_fails ends_comment lines b j l h

start_grows :
    (lines : List Text) (lineix : ℕ) → lineix ≤ find_next_multi_line_comment_start lines lineix
unfolding find_next_multi_line_comment_start
start_grows lines lineix = omega arith

end_grows : (lines : List Text) (b : ℕ) → b ≤ find_next_multi_line_comment_end lines b
unfolding find_next_multi_line_comment_end
end_grows lines b = omega arith

abbrev Run : ℕ → Text → List Text → ℕ → Type 0
Run fuel filename lines lineix =
    (after : List Text) × (actions : List Action) × (remove_from fuel filename lines lineix
      ≡ some (after, actions))
    × Outcome filename lines after actions

-- Where the round clears a range, the rest of the loop gives the outcome.
after_round :
    (fuel : ℕ) (filename : Text) (lines : List Text) (lineix b e : ℕ)
    → b ≤ e
    → e < length lines
    → remove_from (suc fuel) filename lines lineix
      ≡ remove_from fuel filename (cleared lines b e) (e + 1)
    → Run fuel filename (cleared lines b e) (e + 1)
    → Run (suc fuel) filename lines lineix
after_round fuel filename lines lineix b e h l same (after, actions, q, (len, kept, shape)) = (
  after,
  actions,
  same ∙ q,
  (
    len ∙ length-cleared lines b e,
    KeptOrDummy-trans lines (cleared lines b e) after (cleared-KeptOrDummy lines b e h l) kept,
    shape,
  ),
)

remove_from-Outcome :
    (fuel : ℕ) (filename : Text) (lines : List Text) (lineix : ℕ)
    → length lines < fuel + lineix
    → lineix ≤ length lines
    → ClearBelow lineix lines
    → Run fuel filename lines lineix
remove_from-Outcome zero filename lines lineix f l c = absurd (omega arith)
remove_from-Outcome (suc fuel) filename lines lineix f l c =
    let b = find_next_multi_line_comment_start lines lineix in
    let e = find_next_multi_line_comment_end lines b in
    let grows : lineix ≤ b = start_grows lines lineix in
    let ends : b ≤ e = end_grows lines b in
    elim (Bool-cases (leb (length lines) b)) [
      | inl t ↦ (
        lines,
        [],
        unfold remove_from in rw t,
        (refl, λ j. inl refl, inl (refl, λ j h. start_clear lines lineix c j (ground arith))),
      )
      | inr t ↦ elim (Bool-cases (leb (length lines) e)) [
        | inl u ↦ (
          lines,
          no_end_found filename b,
          unfold remove_from in rw (t, u),
          (
            refl,
            λ j. inl refl,
            inr (
              b,
              refl,
              (
                start_begins lines lineix (ground arith),
                λ j h k. end_fails lines b j h (ground arith),
              ),
            ),
          ),
        )
        | inr u ↦
            after_round fuel filename lines lineix b e ends (ground arith)
              (unfold remove_from in rw (t, u))
              (remove_from-Outcome fuel filename (cleared lines b e) (e + 1)
                (ground (arith, length-cleared lines b e))
                (ground (arith, length-cleared lines b e))
                (cleared-ClearBelow lines b e ends (ground arith) (start_clear lines lineix c)))
      ]
    ]

-- `RemoveMultiLineComments` always ends. It keeps the number of lines, and each line is left as it was
-- or made the dummy comment. Afterwards either there is no report and no line opens a comment that
-- goes beyond it, or the one report names a line that opens a comment which no later line ends.
pub remove_multi_line_comments-Outcome :
    (filename : Text) (lines : List Text)
    → (after : List Text) × (actions : List Action) × (remove_multi_line_comments filename lines
        ≡ some (after, actions))
      × Outcome filename lines after actions
unfolding remove_multi_line_comments
remove_multi_line_comments-Outcome filename lines =
    remove_from-Outcome (suc (length lines)) filename lines 0 (omega arith) (omega arith)
      (λ j h. elim h [ ])
