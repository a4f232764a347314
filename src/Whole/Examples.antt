-- ===== src/Whole/Examples.antt =====
-- The theorems on whole files at inputs, and tests.
use dmanix.Base.{◌≡◌, ◌↔◌, refl, true, [], ◌∷◌, codes, length, split_char}
use dmanix.Whole.{
  names_copyright, with_markers, check_for_newline_at_eof, read_lines,
  check_for_unicode_replacement_characters, utf8_report,
}
use dmanix.Whole.Newline.{Ended, check_for_newline_at_eof-Ended}

check_for_newline_at_eof-Ended_example :
    (check_for_newline_at_eof (codes "a.cc") (with_markers (split_char 10 (codes "a;\nb;"))) ≡ [])
    ↔ Ended (codes "a;\nb;")
check_for_newline_at_eof-Ended_example =
    check_for_newline_at_eof-Ended (codes "a.cc") (codes "a;\nb;")

copyright_named : names_copyright (codes "// COPYRIGHT 2012") ≡ true
unfolding names_copyright
copyright_named = refl

returns_removed : read_lines (codes "a;\r\nb\n") ≡ (codes "a;" ∷ codes "b" ∷ [] ∷ [], true)
unfolding read_lines
returns_removed = refl

no_newline_reported :
    length (check_for_newline_at_eof (codes "a.cc") (with_markers (split_char 10 (codes "a;\nb;"))))
    ≡ 1
unfolding check_for_newline_at_eof with_markers split_char
no_newline_reported = refl

replacement_reported :
    check_for_unicode_replacement_characters (codes "a.cc") ([] ∷ (65533 ∷ []) ∷ [])
    ≡ utf8_report (codes "a.cc") 1 ∷ []
unfolding check_for_unicode_replacement_characters
replacement_reported = refl
