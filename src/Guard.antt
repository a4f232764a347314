-- ===== src/Guard.antt =====
-- scripts/cpplint.py: the check of a header's #ifndef guard. The name that the guard should have
-- depends on the file system, and is an argument.
pub mod Proper
pub mod Found
mod Examples
use dmanix.Base.{
  ℕ, ◌+◌, Bool, true, false, not, ◌&&◌, Option, none, some, List, [], ◌∷◌, ◌++◌, reverse, Text,
  codes, text_eq, starts_with, is_space, is_some, get_or, if◌then◌else◌,
}
use dmanix.Lint.{Action, report}
use dmanix.Lint.Suppress.{parse_nolint_suppressions}

abbrev flush : Text → List Text → List Text
flush [] words = words
flush (c ∷ w) words = (c ∷ w) ∷ words

-- s.split(): the texts between runs of white space; `word` is the current one in reverse
unfoldable pub words_from : Text → Text → List Text
unfolding is_space
words_from word [] = flush (reverse word) []
words_from word (c ∷ s) =
    let next = flush (reverse word) (words_from [] s) in
    let longer = words_from (c ∷ word) s in if is_space c then next else longer

unfoldable pub split_words : Text → List Text
unfolding words_from
split_words s = words_from [] s

-- The variables of the loop.
pub record GuardLines : Type 0 where
  pub ifndef : Option Text
  pub ifndef_linenum : ℕ
  pub define : Option Text
  pub endif : Option Text
  pub endif_linenum : ℕ

abbrev pub no_guard : GuardLines
no_guard = record {
  ifndef = none;
  ifndef_linenum = 0;
  define = none;
  endif = none;
  endif_linenum = 0;
}

unfoldable pub take_ifndef : ℕ → Text → Text → GuardLines → GuardLines
unfolding text_eq
take_ifndef linenum w v g =
    if not (is_some g.ifndef) && text_eq w (codes "#ifndef")
    then record g { ifndef = some v; ifndef_linenum = linenum }
    else g

unfoldable pub take_define : Text → Text → GuardLines → GuardLines
unfolding text_eq
take_define w v g =
    if not (is_some g.define) && text_eq w (codes "#define")
    then record g { define = some v }
    else g

abbrev pub take_words : ℕ → List Text → GuardLines → GuardLines
take_words linenum [] g = g
take_words linenum (_ ∷ []) g = g
take_words linenum (w ∷ v ∷ _) g = take_define w v (take_ifndef linenum w v g)

unfoldable pub take_endif : ℕ → Text → GuardLines → GuardLines
unfolding starts_with
take_endif linenum line g =
    if starts_with line (codes "#endif")
    then record g { endif = some line; endif_linenum = linenum }
    else g

-- for linenum, line in enumerate(lines)
unfoldable pub scan_guard : ℕ → List Text → GuardLines → GuardLines
unfolding take_ifndef take_define take_endif split_words
scan_guard linenum [] g = g
scan_guard linenum (line ∷ lines) g =
    scan_guard (linenum + 1) lines
      (take_endif linenum line (take_words linenum (split_words line) g))

abbrev guard_error : Text → ℕ → ℕ → Text → Text → Action
guard_error filename linenum level message cppvar =
    report filename linenum (codes "build/header_guard") level (message ++ cppvar)

abbrev pub level_unless : Bool → ℕ
level_unless b = if b then 0 else 5

-- if ifndef != cppvar
unfoldable pub check_guard_style : Text → List Text → Text → ℕ → Text → List Action
unfolding text_eq
check_guard_style filename lines cppvar linenum ifndef =
    if text_eq ifndef cppvar
    then []
    else parse_nolint_suppressions filename (get_or lines linenum []) linenum
      ++ guard_error filename linenum (level_unless (text_eq ifndef (cppvar ++ codes "_")))
          (codes "#ifndef header guard has wrong style, please use: ") cppvar
        ∷ []

abbrev pub is_line : Option Text → Text → Bool
is_line none s = false
is_line (some r) s = text_eq r s

-- if endif != ('#endif  // %s' % cppvar)
unfoldable pub check_endif : Text → List Text → Text → ℕ → Option Text → List Action
unfolding text_eq
check_endif filename lines cppvar linenum endif =
    if is_line endif (codes "#endif  // " ++ cppvar)
    then []
    else parse_nolint_suppressions filename (get_or lines linenum []) linenum
      ++ guard_error filename linenum
          (level_unless (is_line endif (codes "#endif  // " ++ cppvar ++ codes "_")))
          (codes "#endif line should be \"#endif  // ") (cppvar ++ codes "\"")
        ∷ []

abbrev pub check_names : Text → List Text → Text → GuardLines → Text → Text → List Action
check_names filename lines cppvar g ifndef define =
    check_guard_style filename lines cppvar g.ifndef_linenum ifndef
    ++ (if text_eq define ifndef
        then check_endif filename lines cppvar g.endif_linenum g.endif
        else guard_error filename 0 5
            (codes "#ifndef and #define don't match, suggested CPP variable is: ") cppvar
          ∷ [])

abbrev pub check_guard :
    Text → List Text → Text → GuardLines → Option Text → Option Text → List Action
check_guard filename lines cppvar g none define =
    guard_error filename 0 5 (codes "No #ifndef header guard found, suggested CPP variable is: ")
      cppvar
    ∷ []
check_guard filename lines cppvar g (some ifndef) none =
    guard_error filename 0 5 (codes "No #define header guard found, suggested CPP variable is: ")
      cppvar
    ∷ []
check_guard filename lines cppvar g (some ifndef) (some define) =
    check_names filename lines cppvar g ifndef define

-- CheckForHeaderGuard(filename, lines, error), where `cppvar` is what GetHeaderGuardCPPVariable returns
unfoldable pub check_for_header_guard : Text → List Text → Text → List Action
unfolding scan_guard check_guard_style check_endif
check_for_header_guard filename lines cppvar =
    let g = scan_guard 0 lines no_guard in check_guard filename lines cppvar g g.ifndef g.define
