-- ===== src/Headers/Line.antt =====
-- scripts/cpplint.py: `CheckIncludeLine`.
use mathlib.Core.Bool.{not}
use dmanix.Base.{
  ℕ, Bool, Option, none, some, List, [], ◌∷◌, ◌++◌, Text, codes, text_eq, decimal, is_nil_text,
  if◌then◌else◌,
}
use dmanix.Regex.{Regex, group, star, start, end}
use dmanix.Regex.Chars.{◌⨾◌, chr, lit, in_set, not_in_set, dot, space, plus, opt, one_of}
use dmanix.Regex.Search.{Found, match, search_in, matches, occurs, group_text}
use dmanix.Lint.{Action, report}
use dmanix.Headers.{
  Place, line, file_line, IncludeState, check_next_include_order, is_in_alphabetical_order,
}
use dmanix.Headers.Names.{is_test_filename}
use dmanix.Headers.Classify.{classify_include}

-- #include +"[^/]+\.h"
abbrev re_include_new_style : Regex
re_include_new_style =
    lit "#include" ⨾ plus (chr b' ') ⨾ chr 34 ⨾ plus (not_in_set "/") ⨾ lit ".h" ⨾ chr 34

-- ^\s*#\s*include\s*([<"])([^>"]*)[>"].*$
abbrev pub re_include : Regex
re_include =
    start
    ⨾ star space
    ⨾ chr b'#'
    ⨾ star space
    ⨾ lit "include"
    ⨾ star space
    ⨾ group 1 (in_set "<\"")
    ⨾ group 2 (star (not_in_set ">\""))
    ⨾ in_set ">\""
    ⨾ star dot
    ⨾ end

-- (f|ind|io|i|o|parse|pf|stdio|str|)?stream$
abbrev re_stream : Regex
re_stream =
    opt (one_of "f" ("ind" ∷ "io" ∷ "i" ∷ "o" ∷ "parse" ∷ "pf" ∷ "stdio" ∷ "str" ∷ []))
    ⨾ lit "stream"
    ⨾ end

-- include_state[include]
unfoldable pub place_of : Text → List (Text × Place) → Option Place
place_of include [] = none
place_of include ((k, p) ∷ ps) =
    let rest = place_of include ps in if text_eq k include then some p else rest

-- The place as `%s` prints it.
abbrev place_text : Place → Text
place_text (line n) = decimal n
place_text (file_line f n) = f ++ codes ":" ++ decimal n

abbrev report_if : Bool → Action → List Action
report_if b a = if b then a ∷ [] else []

-- The else branch: a header that the file has not included yet.
unfoldable pub new_include :
    Text → Text → Text → ℕ → Text → Bool → IncludeState → List Action × IncludeState
unfolding check_next_include_order is_in_alphabetical_order
new_include filename repository_name base_name linenum include is_system s =
    let noted = record s { included = (include, line linenum) ∷ s.included } in
    let (error_message, ordered) =
      check_next_include_order (classify_include repository_name include is_system) noted in
    let (alphabetical, sorted) = is_in_alphabetical_order include ordered in
    (
      report_if (not (is_nil_text error_message)) (
            report filename linenum (codes "build/include_order") 4 (
              error_message
              ++ codes ". Should be: "
              ++ base_name
              ++ codes ".h, c system, c++ system, other."))
          ++ report_if (not alphabetical) (
              report filename linenum (codes "build/include_alpha") 4
                (codes "Include \"" ++ include ++ codes "\" not in alphabetical order")),
      sorted,
    )

abbrev pub include_or_repeat :
    Text → Text → Text → ℕ → Text → Bool → IncludeState → Option Place → List Action × IncludeState
include_or_repeat filename repository_name base_name linenum include is_system s (some place) = (
  report filename linenum (codes "build/include") 4 (
        codes "\""
        ++ include
        ++ codes "\" already included at "
        ++ filename
        ++ codes ":"
        ++ place_text place)
      ∷ [],
  s,
)
include_or_repeat filename repository_name base_name linenum include is_system s none =
    new_include filename repository_name base_name linenum include is_system s

abbrev pub on_include :
    Text → Text → Text → ℕ → IncludeState → Option Found → List Action × IncludeState
on_include filename repository_name base_name linenum s none = ([], s)
on_include filename repository_name base_name linenum s (some m) =
    let include = group_text m 2 in
    include_or_repeat filename repository_name base_name linenum include
      (text_eq (group_text m 1) (codes "<")) s (place_of include s.included)

abbrev pub on_stream : Text → ℕ → Option Found → List Action
on_stream filename linenum none = []
on_stream filename linenum (some m) =
    if matches re_stream (group_text m 2)
    then report_if (not (is_test_filename filename)) (
        report filename linenum (codes "readability/streams") 3
          (codes "Streams are highly discouraged."))
    else []

-- `source_line` is clean_lines.lines[linenum]; `repository_name` and `base_name` are those of
-- FileInfo(filename).
unfoldable pub check_include_line :
    Text → Text → Text → Text → ℕ → IncludeState → List Action × IncludeState
unfolding new_include place_of matches occurs match search_in group_text is_test_filename
check_include_line filename repository_name base_name source_line linenum s =
    let style = report_if (occurs re_include_new_style source_line) (
      report filename linenum (codes "build/include") 4
        (codes "Include the directory when naming .h files")) in
    let (actions, s') =
      on_include filename repository_name base_name linenum s (search_in re_include source_line) in
    (style ++ actions ++ on_stream filename linenum (match re_include source_line), s')
