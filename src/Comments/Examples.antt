-- ===== src/Comments/Examples.antt =====
-- The theorem on multi-line comments at an input, and a test.
use dmanix.Base.{◌≡◌, refl, Option, none, some, List, [], ◌∷◌, Text, codes}
use dmanix.Lint.{Action}
use dmanix.Comments.{remove_multi_line_comments}
use dmanix.Comments.Cleared.{Outcome, remove_multi_line_comments-Outcome}

abbrev file : List Text
file = codes "int a;" ∷ codes " /* one" ∷ codes "two */" ∷ codes "/* three" ∷ []

remove_multi_line_comments-Outcome_example :
    (after : List Text) × (actions : List Action) × (remove_multi_line_comments (codes "a.cc") file
      ≡ some (after, actions))
    × Outcome (codes "a.cc") file after actions
remove_multi_line_comments-Outcome_example = remove_multi_line_comments-Outcome (codes "a.cc") file

abbrev lines_of : Option (List Text × List Action) → List Text
lines_of (some (after, actions)) = after
lines_of none = []

removed :
    lines_of (remove_multi_line_comments (codes "a.cc") file)
    ≡ codes "int a;" ∷ codes "// dummy" ∷ codes "// dummy" ∷ codes "/* three" ∷ []
unfolding remove_multi_line_comments
removed = refl
