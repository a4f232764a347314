-- ===== src/Language/Classes.antt =====
-- scripts/cpplint.py: what `CheckLanguage` says of the macros that end a class and of unnamed namespaces.
use dmanix.Base.{
  ℕ, ◌+◌, not, ◌&&◌, ◌||◌, Option, none, some, List, [], ◌∷◌, ◌++◌, Text, codes, text_eq, get_or,
  ends_with, is_ascii_space, ltb, ◌==◌,
}
use dmanix.Regex.{Regex, one, group, star, start, end, boundary, is_word}
use dmanix.Regex.Chars.{◌⨾◌, chr, lit, one_of, dot, space}
use dmanix.Regex.Search.{Found, match, occurs, group_text}
use dmanix.Lint.{Action}
use dmanix.Lint.Report.{error_if}
use dmanix.Lines.{CleansedLines}

-- \s*(DISALLOW_(EVIL_CONSTRUCTORS|COPY_AND_ASSIGN|IMPLICIT_CONSTRUCTORS))\(.*\);$
abbrev pub re_disallow : Regex
re_disallow =
    star space
    ⨾ group 1 (
        lit "DISALLOW_"
        ⨾ group 2 (one_of "EVIL_CONSTRUCTORS" ("COPY_AND_ASSIGN" ∷ "IMPLICIT_CONSTRUCTORS" ∷ [])))
    ⨾ chr b'('
    ⨾ star dot
    ⨾ lit ");"
    ⨾ end

-- ^\s*}[\w\*,\s]*;
abbrev re_class_end : Regex
re_class_end =
    start
    ⨾ star space
    ⨾ chr b'}'
    ⨾ star (one (λ d. is_word d || d == b'*' || d == b',' || is_ascii_space d))
    ⨾ chr b';'

abbrev pub disallow_actions : Text → CleansedLines → ℕ → Option Found → List Action
disallow_actions filename clean linenum none = []
disallow_actions filename clean linenum (some m) =
    error_if
      (ltb (linenum + 1) clean.num_lines
        && not (occurs re_class_end (get_or clean.elided (linenum + 1) [])))
      filename linenum "readability/constructors" 3
      (group_text m 1 ++ codes " should be the last thing in the class")

unfoldable pub check_disallow : Text → CleansedLines → ℕ → Text → List Action
unfolding error_if match occurs group_text
check_disallow filename clean linenum line =
    disallow_actions filename clean linenum (match re_disallow line)

-- In a header: \bnamespace\s*{ on a line that does not end with a backslash.
unfoldable pub check_unnamed_namespace : Text → ℕ → Text → Text → List Action
unfolding error_if text_eq occurs ends_with
check_unnamed_namespace filename linenum file_extension line =
    error_if
      (text_eq file_extension (codes "h")
        && occurs (boundary ⨾ lit "namespace" ⨾ star space ⨾ chr b'{') line
        && not (ends_with line (codes "\\")))
      filename linenum "build/namespaces" 4
      (codes "Do not use unnamed namespaces in header files.  See "
        ++ codes "http://google-styleguide.googlecode.com/svn/trunk/cppguide.xml#Namespaces"
        ++ codes " for more information.")
