-- ===== src/Lines/Shape.antt =====
-- Tests of the cleansing on single lines.
use dmanix.Base.{◌≡◌, refl, codes}
use dmanix.Lines.{cleanse_comments, collapse_strings}

line_comment_removed : cleanse_comments (codes "a = 1;  // b") ≡ codes "a = 1;"
unfolding cleanse_comments
line_comment_removed = refl

block_comment_removed : cleanse_comments (codes "f(/* x */ 1);") ≡ codes "f(1);"
unfolding cleanse_comments
block_comment_removed = refl

strings_collapsed : collapse_strings (codes "f(\"a\\\"b\", 'c');") ≡ codes "f(\"\", '');"
unfolding collapse_strings
strings_collapsed = refl

include_kept : collapse_strings (codes "#include \"a.h\"") ≡ codes "#include \"a.h\""
unfolding collapse_strings
include_kept = refl
