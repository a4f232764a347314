-- ===== src/Lint/Report.antt =====
-- A call `error(filename, linenum, category, confidence, message)` under a condition.
use dmanix.Base.{
  ℕ, Bool, Option, none, some, List, [], ◌∷◌, ◌++◌, Text, String, codes, if◌then◌else◌,
}
use dmanix.Regex.Search.{Found, group_text}
use dmanix.Lint.{Action, report, suppress}

unfoldable pub error_if : Bool → Text → ℕ → String → ℕ → Text → List Action
error_if b filename linenum category confidence message =
    if b then report filename linenum (codes category) confidence message ∷ [] else []

-- The call in the body of `if match:`, where the message ends with `match.group(1)`.
unfoldable pub error_with_group : Text → ℕ → String → ℕ → String → Option Found → List Action
unfolding group_text
error_with_group filename linenum category confidence message none = []
error_with_group filename linenum category confidence message (some m) =
    report filename linenum (codes category) confidence (codes message ++ group_text m 1) ∷ []

-- The messages of the calls of `error`.
abbrev pub messages : List Action → List Text
messages [] = []
messages (report f n c l message ∷ actions) = message ∷ messages actions
messages (suppress k n ∷ actions) = messages actions
