-- ===== src/Tokens/Lines.antt =====
-- scripts/cpplint.py: `CheckForMultilineCommentsAndStrings`, `CheckPosixThreading`, `CheckInvalidIncrement`,
-- `CheckComment`, `CheckAltTokens` and `CheckMakePairUsesDeduction`.
use dmanix.Base.{
  ℕ, zero, suc, ◌+◌, ◌%◌, Bool, true, false, not, ◌&&◌, ◌||◌, Option, none, some, List, [], ◌∷◌,
  ◌++◌, Text, String, codes, get_or, find, count, count_char, length, ltb, leb, map, replace,
  text_eq, is_some, is_nil_text, ◌==◌, if◌then◌else◌,
}
use dmanix.Regex.{Regex, group, star, look, start, end, boundary}
use dmanix.Regex.Chars.{
  ◌⨾◌, ◌⊕◌, chr, lit, one_of, in_set, dot, space, word_char, plus, lazy_plus, opt,
}
use dmanix.Regex.Search.{Found, match, matches, occurs, find_all, group_of, group_text}
use dmanix.Lint.{Action, report}
use dmanix.Lint.Report.{error_if}
use dmanix.Lines.{CleansedLines}

-- CheckForMultilineCommentsAndStrings(filename, clean_lines, linenum, error). The difference of two counts is odd
-- exactly error_if their sum is, also where it is negative.
unfoldable pub check_for_multiline_comments_and_strings : Text → CleansedLines → ℕ → List Action
unfolding error_if replace count count_char
check_for_multiline_comments_and_strings filename clean linenum =
    let line = replace (codes "\\\\") [] (get_or clean.elided linenum []) in
    error_if (ltb (count (codes "*/") line) (count (codes "/*") line)) filename linenum
      "readability/multiline_comment" 5
      (codes "Complex multi-line /*...*/-style comment found. "
        ++ codes "Lint may give bogus warnings.  "
        ++ codes "Consider replacing these with //-style comments, "
        ++ codes "with #if 0...#endif, "
        ++ codes "or with more clearly structured multi-line comments.")
    ++ error_if ((count_char 34 line + count (codes "\\\"") line) % 2 == 1) filename linenum
        "readability/multiline_string" 5
        (codes "Multi-line string (\"...\") found.  This lint script doesn't "
          ++ codes "do well with such strings, and may give bogus warnings.  They're "
          ++ codes "ugly and unnecessary, and you should use concatenation instead\".")

-- threading_list
abbrev pub threading_list : List (String × String)
threading_list =
    ("asctime(", "asctime_r(")
    ∷ ("ctime(", "ctime_r(")
    ∷ ("getgrgid(", "getgrgid_r(")
    ∷ ("getgrnam(", "getgrnam_r(")
    ∷ ("getlogin(", "getlogin_r(")
    ∷ ("getpwnam(", "getpwnam_r(")
    ∷ ("getpwuid(", "getpwuid_r(")
    ∷ ("gmtime(", "gmtime_r(")
    ∷ ("localtime(", "localtime_r(")
    ∷ ("rand(", "rand_r(")
    ∷ ("readdir(", "readdir_r(")
    ∷ ("strtok(", "strtok_r(")
    ∷ ("ttyname(", "ttyname_r(")
    ∷ []

-- c.isalnum(), on ASCII
abbrev is_alnum : ℕ → Bool
is_alnum c = leb b'0' c && leb c b'9' || leb b'A' c && leb c b'Z' || leb b'a' c && leb c b'z'

-- The first occurrence of the name does not follow a name, `.` or `->`.
abbrev stands_free : Text → Option ℕ → Bool
stands_free line none = false
stands_free line (some zero) = true
stands_free line (some (suc i)) =
    let c = get_or line i 0 in not (is_alnum c) && not (c == b'_' || c == b'.' || c == b'>')

unfoldable pub check_threading : Text → ℕ → Text → List (String × String) → List Action
unfolding error_if find
check_threading filename linenum line [] = []
check_threading filename linenum line ((single, multi) ∷ pairs) =
    error_if (stands_free line (find line (codes single))) filename linenum "runtime/threadsafe_fn"
      2
      (codes "Consider using "
        ++ codes multi
        ++ codes "...) instead of "
        ++ codes single
        ++ codes "...) for improved thread safety.")
    ++ check_threading filename linenum line pairs

-- CheckPosixThreading(filename, clean_lines, linenum, error)
unfoldable pub check_posix_threading : Text → CleansedLines → ℕ → List Action
unfolding check_threading
check_posix_threading filename clean linenum =
    check_threading filename linenum (get_or clean.elided linenum []) threading_list

-- ^\s*\*\w+(\+\+|--);
abbrev re_invalid_increment : Regex
re_invalid_increment =
    start ⨾ star space ⨾ chr b'*' ⨾ plus word_char ⨾ group 1 (lit "++" ⊕ lit "--") ⨾ chr b';'

-- CheckInvalidIncrement(filename, clean_lines, linenum, error)
unfoldable pub check_invalid_increment : Text → CleansedLines → ℕ → List Action
unfolding error_if matches
check_invalid_increment filename clean linenum =
    error_if (matches re_invalid_increment (get_or clean.elided linenum [])) filename linenum
      "runtime/invalid_increment" 5
      (codes "Changing pointer instead of value (or unused value of operator*).")

-- ^//(\s*)TODO(\(.+?\))?:?(\s|$)?
abbrev pub re_todo : Regex
re_todo =
    start
    ⨾ lit "//"
    ⨾ group 1 (star space)
    ⨾ lit "TODO"
    ⨾ opt (group 2 (chr b'(' ⨾ lazy_plus dot ⨾ chr b')'))
    ⨾ opt (chr b':')
    ⨾ opt (group 3 (space ⊕ end))

abbrev no_username : Option Text → Bool
no_username none = true
no_username (some t) = is_nil_text t

-- middle_whitespace != ' ' and middle_whitespace != ''; None is neither of them
abbrev crowded : Option Text → Bool
crowded none = true
crowded (some t) = not (text_eq t (codes " ")) && not (is_nil_text t)

abbrev pub todo_actions : Text → ℕ → Option Found → List Action
todo_actions filename linenum none = []
todo_actions filename linenum (some m) =
    error_if (ltb 1 (length (group_text m 1))) filename linenum "whitespace/todo" 2
      (codes "Too many spaces before TODO")
    ++ error_if (no_username (group_of m 2)) filename linenum "readability/todo" 2 (
        codes "Missing username in TODO; it should look like "
        ++ codes "\"// TODO(my_username): Stuff.\"")
    ++ error_if (crowded (group_of m 3)) filename linenum "whitespace/todo" 2
        (codes "TODO(my_username) should be followed by a space")

-- CheckComment(comment, filename, linenum, error)
unfoldable pub check_comment : Text → Text → ℕ → List Action
unfolding error_if match group_of group_text text_eq
check_comment comment filename linenum = todo_actions filename linenum (match re_todo comment)

-- _ALT_TOKEN_REPLACEMENT. The order of its keys in the pattern makes no difference, since a key is read only where
-- a space, a parenthesis or the end of the line follows it.
abbrev pub alt_token_replacement : List (String × String)
alt_token_replacement =
    ("and", "&&")
    ∷ ("bitor", "|")
    ∷ ("or", "||")
    ∷ ("xor", "^")
    ∷ ("compl", "~")
    ∷ ("bitand", "&")
    ∷ ("and_eq", "&=")
    ∷ ("or_eq", "|=")
    ∷ ("xor_eq", "^=")
    ∷ ("not", "!")
    ∷ ("not_eq", "!=")
    ∷ []

-- [ =()](and|…)(?=[ (]|$)
abbrev re_alt_token : Regex
re_alt_token =
    in_set " =()"
    ⨾ group 1 (
        one_of "and" (
          "bitor" ∷ "or" ∷ "xor" ∷ "compl" ∷ "bitand" ∷ "and_eq" ∷ "or_eq" ∷ "xor_eq" ∷ "not"
          ∷ "not_eq" ∷ []))
    ⨾ look (in_set " (" ⊕ end)

unfoldable pub operator_for : Text → List (String × String) → Text
unfolding text_eq
operator_for token [] = []
operator_for token ((t, o) ∷ table) =
    let rest = operator_for token table in if text_eq token (codes t) then codes o else rest

abbrev pub alt_report : Text → ℕ → Found → Action
alt_report filename linenum m = report filename linenum (codes "readability/alt_tokens") 2 (
    codes "Use operator "
    ++ operator_for (group_text m 1) alt_token_replacement
    ++ codes " instead of "
    ++ group_text m 1)

-- CheckAltTokens(filename, clean_lines, linenum, error)
unfoldable pub check_alt_tokens : Text → CleansedLines → ℕ → List Action
unfolding matches find find_all group_text operator_for
check_alt_tokens filename clean linenum =
    let line = get_or clean.elided linenum [] in
    if matches (start ⨾ star space ⨾ chr b'#') line
    then []
    else if is_some (find line (codes "/*")) || is_some (find line (codes "*/"))
    then []
    else map (alt_report filename linenum) (find_all re_alt_token line)

-- CheckMakePairUsesDeduction(filename, clean_lines, linenum, error)
unfoldable pub check_make_pair_uses_deduction : Text → CleansedLines → ℕ → List Action
unfolding error_if occurs
check_make_pair_uses_deduction filename clean linenum =
    error_if
      (occurs (boundary ⨾ lit "make_pair" ⨾ star space ⨾ chr b'<')
        (get_or clean.raw_lines linenum []))
      filename linenum "build/explicit_make_pair" 4
      (codes "For C++11-compatibility, omit template arguments from make_pair"
        ++ codes " OR use pair directly OR if appropriate, construct a pair directly")
