-- ===== src/Lint/Suppress/Proper.antt =====
-- The calls of `ParseNolintSuppressions` are proper.
use dmanix.Base.{
  ℕ, ◌≡◌, true, ◌++◌, codes, Option, none, some, Text, mem_text, Bool-cases, inl, inr,
}
use dmanix.Regex.Search.{Found, search_in}
use dmanix.Lint.{report, suppress}
use dmanix.Lint.Categories.{error_categories}
use dmanix.Lint.Proper.{Proper, IsProper, nil-Proper, cons-Proper, if-Proper, proper_rules}
use dmanix.Regex.Search.{group_of}
use dmanix.Lint.Suppress.{
  inside, nolint_category, group_actions, nolint_actions, re_suppression, parse_nolint_suppressions,
}

suppress_all-IsProper : (filename : Text) (linenum : ℕ) → IsProper filename (suppress none linenum)
unfolding IsProper
suppress_all-IsProper filename linenum = tt

suppress-IsProper :
    (filename category : Text) (linenum : ℕ)
    → mem_text category error_categories ≡ true
    → IsProper filename (suppress (some category) linenum)
unfolding IsProper
suppress-IsProper filename category linenum h = h

nolint-IsProper :
    (filename category : Text) (linenum : ℕ)
    → IsProper filename (
        report filename linenum
          (codes "readability/nolint")
          5
          (codes "Unknown NOLINT error category: " ++ inside category))
unfolding mem_text error_categories
nolint-IsProper filename category linenum = search proper_rules

nolint_category-Proper :
    (filename category : Text) (linenum : ℕ)
    → Proper filename (nolint_category filename category linenum)
unfolding nolint_category
nolint_category-Proper filename category linenum =
    elim (Bool-cases (mem_text (inside category) error_categories)) [
      | inl e ↦ rw e (
          if-Proper _ (cons-Proper (suppress_all-IsProper filename linenum) nil-Proper) (
            if-Proper _
              (cons-Proper (suppress-IsProper filename (inside category) linenum e) nil-Proper)
              nil-Proper))
      | inr e ↦ rw e (
          if-Proper _ (cons-Proper (suppress_all-IsProper filename linenum) nil-Proper) (
            if-Proper _ (cons-Proper (nolint-IsProper filename category linenum) nil-Proper)
              nil-Proper))
    ]

group_actions-Proper :
    (filename : Text) (linenum : ℕ) (category : Option Text)
    → Proper filename (group_actions filename linenum category)
group_actions-Proper filename linenum none =
    cons-Proper (suppress_all-IsProper filename linenum) nil-Proper
group_actions-Proper filename linenum (some category) =
    nolint_category-Proper filename category linenum

nolint_actions-Proper :
    (filename : Text) (linenum : ℕ) (m : Option Found)
    → Proper filename (nolint_actions filename linenum m)
nolint_actions-Proper filename linenum none = nil-Proper
nolint_actions-Proper filename linenum (some m) =
    group_actions-Proper filename linenum (group_of m 1)

pub parse_nolint_suppressions-Proper :
    (filename raw_line : Text) (linenum : ℕ)
    → Proper filename (parse_nolint_suppressions filename raw_line linenum)
unfolding parse_nolint_suppressions
parse_nolint_suppressions-Proper filename raw_line linenum =
    nolint_actions-Proper filename linenum (search_in re_suppression raw_line)
