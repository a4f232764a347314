-- ===== src/Lint/Suppress.antt =====
-- NOLINT comments: `ParseNolintSuppressions`, `ResetNolintSuppressions`, `IsErrorSuppressedByNolint`.
pub mod Proper
use dmanix.Base.{
  ℕ, Bool, true, false, ◌&&◌, ◌||◌, Option, none, some, List, [], ◌∷◌, ◌++◌, Text, codes, text_eq,
  mem_text, starts_with, ends_with, length, drop, take, ◌-◌, ◌==◌, if◌then◌else◌,
}
use dmanix.Regex.{Regex, group, star, boundary}
use dmanix.Regex.Chars.{◌⨾◌, chr, lit, not_in_set, opt}
use dmanix.Regex.Search.{Found, search_in, group_of}
use dmanix.Lint.{Action, report, suppress}
use dmanix.Lint.Categories.{error_categories}

-- \bNOLINT\b(\([^)]*\))?
abbrev pub re_suppression : Regex
re_suppression =
    boundary ⨾ lit "NOLINT" ⨾ boundary ⨾ opt (group 1 (chr b'(' ⨾ star (not_in_set ")") ⨾ chr b')'))

-- category[1:-1]
abbrev pub inside : Text → Text
inside t = drop 1 (take (length t - 1) t)

unfoldable pub nolint_category : Text → Text → ℕ → List Action
nolint_category filename category linenum =
    if text_eq category (codes "(*)")
    then suppress none linenum ∷ []
    else if starts_with category (codes "(") && ends_with category (codes ")")
    then (if mem_text (inside category) error_categories
        then suppress (some (inside category)) linenum ∷ []
        else report filename linenum (codes "readability/nolint") 5
            (codes "Unknown NOLINT error category: " ++ inside category)
          ∷ [])
    else []

-- matched.group(1), where None is for all categories
abbrev pub group_actions : Text → ℕ → Option Text → List Action
group_actions filename linenum none = suppress none linenum ∷ []
group_actions filename linenum (some category) = nolint_category filename category linenum

abbrev pub nolint_actions : Text → ℕ → Option Found → List Action
nolint_actions filename linenum none = []
nolint_actions filename linenum (some m) = group_actions filename linenum (group_of m 1)

unfoldable pub parse_nolint_suppressions : Text → Text → ℕ → List Action
unfolding nolint_category search_in group_of
parse_nolint_suppressions filename raw_line linenum =
    nolint_actions filename linenum (search_in re_suppression raw_line)

abbrev pub option_eq : Option Text → Option Text → Bool
option_eq none none = true
option_eq none (some _) = false
option_eq (some _) none = false
option_eq (some s) (some t) = text_eq s t

-- linenum in _error_suppressions.get(key, set())
unfoldable pub suppressed_under : Option Text → ℕ → List (Option Text × ℕ) → Bool
unfolding text_eq
suppressed_under key linenum [] = false
suppressed_under key linenum ((k, n) ∷ ps) =
    option_eq k key && n == linenum || suppressed_under key linenum ps

unfoldable pub is_error_suppressed_by_nolint : Text → ℕ → List (Option Text × ℕ) → Bool
unfolding suppressed_under
is_error_suppressed_by_nolint category linenum ps =
    suppressed_under (some category) linenum ps || suppressed_under none linenum ps

unfoldable pub reset_nolint_suppressions : List (Option Text × ℕ)
reset_nolint_suppressions = []
