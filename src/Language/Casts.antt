-- ===== src/Language/Casts.antt =====
-- scripts/cpplint.py: `CheckCStyleCast`, and what `CheckLanguage` says of casts.
use dmanix.Base.{
  ℕ, zero, suc, Bool, true, false, not, ◌&&◌, ◌||◌, Option, none, some, List, [], ◌∷◌, ◌++◌, Text,
  String, codes, text_eq, get_or, take, drop, find, ends_with, is_some, if◌then◌else◌,
}
use dmanix.Regex.{Regex, group, star, start, end, boundary}
use dmanix.Regex.Chars.{
  ◌⨾◌, ◌⊕◌, chr, lit, one_of, not_in_set, dot, space, non_space, word_char, plus, opt, digit,
}
use dmanix.Regex.Search.{
  Found, search_in, match, matches, occurs, group_of, group_text, start_of, end_of,
}
use dmanix.Lint.{Action}
use dmanix.Lint.Report.{error_if}
use dmanix.Lines.{CleansedLines}
use dmanix.Headers.Names.{is_test_filename}

-- (\bnew\s+)?\b(int|…|uint64)\([^)]
abbrev pub re_conversion : Regex
re_conversion =
    opt (group 1 (boundary ⨾ lit "new" ⨾ plus space))
    ⨾ boundary
    ⨾ group 2 (
        one_of "int"
          ("float" ∷ "double" ∷ "bool" ∷ "char" ∷ "int32" ∷ "uint32" ∷ "int64" ∷ "uint64" ∷ []))
    ⨾ chr b'('
    ⨾ not_in_set ")"

-- ^\s*MOCK_(CONST_)?METHOD\d+(_T)?\(
abbrev re_mock_method : Regex
re_mock_method =
    start
    ⨾ star space
    ⨾ lit "MOCK_"
    ⨾ opt (group 1 (lit "CONST_"))
    ⨾ lit "METHOD"
    ⨾ plus digit
    ⨾ opt (group 2 (lit "_T"))
    ⨾ chr b'('

-- ^\s*MockCallback<.*>
abbrev re_mock_callback : Regex
re_mock_callback = start ⨾ star space ⨾ lit "MockCallback<" ⨾ star dot ⨾ chr b'>'

-- The line before is a MOCK_METHOD that goes on: ^\s*MOCK_(CONST_)?METHOD\d+(_T)?\(\S+,\s*$
unfoldable pub follows_mock : List Text → ℕ → Bool
unfolding matches
follows_mock elided zero = false
follows_mock elided (suc n) =
    matches (re_mock_method ⨾ plus non_space ⨾ chr b',' ⨾ star space ⨾ end) (get_or elided n [])

-- The conversion is neither behind `new` nor a part of a mocked method.
unfoldable pub is_deprecated_cast : CleansedLines → ℕ → Text → Found → Bool
unfolding group_of matches follows_mock
is_deprecated_cast clean linenum line m =
    not (is_some (group_of m 1))
    && not (matches re_mock_method line || matches re_mock_callback line)
    && not (follows_mock clean.elided linenum)

abbrev pub conversion_actions : Text → CleansedLines → ℕ → Text → Option Found → List Action
conversion_actions filename clean linenum line none = []
conversion_actions filename clean linenum line (some m) =
    error_if (is_deprecated_cast clean linenum line m) filename linenum "readability/casting" 4 (
      codes "Using deprecated casting style.  "
      ++ codes "Use static_cast<"
      ++ group_text m 2
      ++ codes ">(...) instead")

unfoldable pub check_conversion : Text → CleansedLines → ℕ → Text → List Action
unfolding error_if group_text search_in is_deprecated_cast
check_conversion filename clean linenum line =
    conversion_actions filename clean linenum line (search_in re_conversion line)

-- \s*(\)|=|(const)?\s*(;|\{|throw\(\)|>))
abbrev re_function : Regex
re_function =
    star space
    ⨾ group 1 (
        chr b')'
        ⊕ chr b'='
        ⊕ opt (group 2 (lit "const"))
          ⨾ star space
          ⨾ group 3 (one_of ";" ("{" ∷ "throw()" ∷ ">" ∷ [])))

abbrev is_semicolon : Option Text → Bool
is_semicolon none = true
is_semicolon (some t) = text_eq t (codes ";")

abbrev lacks : Text → String → Bool
lacks line part = not (is_some (find line (codes part)))

-- A parameter without a name: no group 3, or `;` in it, or neither a MockCallback nor a comment on the line.
unfoldable pub unnamed_parameter : Text → Found → Bool
unfolding group_of text_eq find
unnamed_parameter raw_line f =
    is_semicolon (group_of f 3) || lacks raw_line "MockCallback<" && lacks raw_line "/*"

abbrev pub cast_or_function : Text → ℕ → Text → String → Found → Option Found → Bool × List Action
cast_or_function filename linenum raw_line cast_type m (some f) = (
  true,
  error_if (unnamed_parameter raw_line f) filename linenum "readability/function" 3
      (codes "All parameters should be named in a function"),
)
cast_or_function filename linenum raw_line cast_type m none = (
  true,
  error_if true filename linenum "readability/casting" 4 (
      codes "Using C-style cast.  Use "
      ++ codes cast_type
      ++ codes "<"
      ++ group_text m 1
      ++ codes ">(...) instead"),
)

abbrev pub on_cast : Text → ℕ → Text → Text → String → Option Found → Bool × List Action
on_cast filename linenum line raw_line cast_type none = (false, [])
on_cast filename linenum line raw_line cast_type (some m) =
    let before = take (start_of m) line in
    if matches (star dot ⨾ lit "sizeof" ⨾ star space ⨾ end) before
    then (
      true,
      error_if true filename linenum "runtime/sizeof" 1
          (codes "Using sizeof(type).  Use sizeof(varname) instead if possible"),
    )
    else if ends_with before (codes " operator++") || ends_with before (codes " operator--")
    then (false, [])
    else cast_or_function filename linenum raw_line cast_type m
        (match re_function (drop (end_of m) line))

-- CheckCStyleCast(filename, linenum, line, raw_line, cast_type, pattern, error): its answer and its errors. Every
-- pattern begins with `\(` and then group 1, so match.start(1) - 1 is where the match starts.
unfoldable pub check_c_style_cast : Text → ℕ → Text → Text → String → Regex → Bool × List Action
unfolding error_if search_in match matches group_text start_of end_of ends_with unnamed_parameter
check_c_style_cast filename linenum line raw_line cast_type pattern =
    on_cast filename linenum line raw_line cast_type (search_in pattern line)

-- \((int|float|double|bool|char|u?int(16|32|64))\)
abbrev pub re_basic_cast : Regex
re_basic_cast =
    chr b'('
    ⨾ group 1 (
        one_of "int" ("float" ∷ "double" ∷ "bool" ∷ "char" ∷ [])
        ⊕ opt (chr b'u') ⨾ lit "int" ⨾ group 2 (one_of "16" ("32" ∷ "64" ∷ [])))
    ⨾ chr b')'

-- NAME\s?\*+\s? as group 1 in parentheses
abbrev pub re_pointer_cast : Regex → Regex
re_pointer_cast name =
    chr b'(' ⨾ group 1 (name ⨾ opt space ⨾ plus (chr b'*') ⨾ opt space) ⨾ chr b')'

-- The three calls of CheckCStyleCast, the last one only where the second answers False.
unfoldable pub check_c_style_casts : Text → CleansedLines → ℕ → Text → List Action
unfolding check_c_style_cast
check_c_style_casts filename clean linenum line =
    let raw_line = get_or clean.raw_lines linenum [] in
    let (_, basic) =
      check_c_style_cast filename linenum line raw_line "static_cast" re_basic_cast in
    let (found, const_casts) =
      check_c_style_cast filename linenum line raw_line "const_cast"
        (re_pointer_cast (lit "char") ⨾ star space ⨾ chr 34) in
    let (_, others) =
      check_c_style_cast filename linenum line raw_line "reinterpret_cast"
        (re_pointer_cast (plus word_char)) in
    basic ++ const_casts ++ (if found then [] else others)

-- (&\([^)]+\)[\w(])|(&(static|dynamic|reinterpret)_cast\b)
abbrev re_address_of_cast : Regex
re_address_of_cast =
    group 1 (lit "&(" ⨾ plus (not_in_set ")") ⨾ chr b')' ⨾ (word_char ⊕ chr b'('))
    ⊕ group 2 (
        chr b'&'
        ⨾ group 3 (one_of "static" ("dynamic" ∷ "reinterpret" ∷ []))
        ⨾ lit "_cast"
        ⨾ boundary)

unfoldable pub check_casts : Text → CleansedLines → ℕ → Text → List Action
unfolding error_if occurs check_conversion check_c_style_casts
check_casts filename clean linenum line =
    check_conversion filename clean linenum line
    ++ check_c_style_casts filename clean linenum line
    ++ error_if (occurs re_address_of_cast line) filename linenum "runtime/casting" 4 (
        codes "Are you taking an address of a cast?  "
        ++ codes "This is dangerous: could be a temp var.  "
        ++ codes "Take the address before doing the cast, rather than after")

-- \bdynamic_cast< outside a test
unfoldable pub check_rtti : Text → ℕ → Text → List Action
unfolding error_if occurs is_test_filename
check_rtti filename linenum line =
    error_if (occurs (boundary ⨾ lit "dynamic_cast<") line && not (is_test_filename filename))
      filename linenum "runtime/rtti" 5
      (codes "Do not use dynamic_cast<>.  If you need to cast within a class "
        ++ codes "hierarchy, use static_cast<> to upcast.  Google doesn't support "
        ++ codes "RTTI.")
