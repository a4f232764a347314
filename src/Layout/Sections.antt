-- ===== src/Layout/Sections.antt =====
-- scripts/cpplint.py: `CheckSectionSpacing` and `CheckAccess`, which look at the class that a line is in.
use dmanix.Base.{
  ℕ, zero, suc, ◌+◌, ◌-◌, Bool, not, ◌&&◌, ◌||◌, Option, none, some, List, [], ◌∷◌, ◌++◌, Text,
  codes, get_or, text_eq, ltb, leb, if◌then◌else◌,
}
use dmanix.Regex.{Regex, group, star, end, boundary}
use dmanix.Regex.Chars.{◌⨾◌, ◌⊕◌, chr, lit, one_of, space}
use dmanix.Regex.Search.{Found, match, occurs, group_text}
use dmanix.Lint.{Action, report}
use dmanix.Lines.{CleansedLines}
use dmanix.Nesting.{ClassInfo, Kind, plain, class_kind, namespace_kind, BlockInfo}
use dmanix.Layout.{is_blank_line}

-- \s*(public|protected|private):
abbrev pub re_section : Regex
re_section = star space ⨾ group 1 (one_of "public" ("protected" ∷ "private" ∷ [])) ⨾ chr b':'

-- \{\s*$
abbrev re_open_end : Regex
re_open_end = chr b'{' ⨾ star space ⨾ end

-- The loop for end_class_head over `n` lines from line `i` on; `start` is where the class starts.
unfoldable pub end_class_head : List Text → ℕ → ℕ → ℕ → ℕ
unfolding occurs
end_class_head lines start i zero = start
end_class_head lines start i (suc n) =
    let later = end_class_head lines start (i + 1) n in
    if occurs re_open_end (get_or lines i []) then i else later

-- The line before `public:` and its like: not blank, no class head, no backslash at its end.
unfoldable pub crowded : Text → Bool
unfolding is_blank_line occurs
crowded prev_line =
    not (is_blank_line prev_line)
    && not (occurs (boundary ⨾ group 1 (lit "class" ⊕ lit "struct") ⨾ boundary) prev_line)
    && not (occurs (chr 92 ⨾ end) prev_line)

abbrev pub section_report : Text → CleansedLines → ClassInfo → ℕ → Option Found → List Action
section_report filename clean class_info linenum none = []
section_report filename clean class_info linenum (some matched) =
    if crowded (get_or clean.lines (linenum - 1) [])
      && ltb
          (end_class_head clean.lines class_info.starting_linenum class_info.starting_linenum
            (linenum - class_info.starting_linenum))
          (linenum - 1)
    then report filename linenum (codes "whitespace/blank_line") 3
        (codes "\"" ++ group_text matched 1 ++ codes ":\" should be preceded by a blank line")
      ∷ []
    else []

-- CheckSectionSpacing(filename, clean_lines, class_info, linenum, error). The difference of the line numbers is
-- at most 24 also where it is negative.
unfoldable pub check_section_spacing : Text → CleansedLines → ClassInfo → ℕ → List Action
unfolding match group_text crowded end_class_head
check_section_spacing filename clean class_info linenum =
    if leb (class_info.last_line - class_info.starting_linenum) 24
      || leb linenum class_info.starting_linenum
    then []
    else section_report filename clean class_info linenum
        (match re_section (get_or clean.lines linenum []))

-- \s*(DISALLOW_COPY_AND_ASSIGN|DISALLOW_EVIL_CONSTRUCTORS|DISALLOW_IMPLICIT_CONSTRUCTORS)
abbrev pub re_disallow : Regex
re_disallow =
    star space
    ⨾ group 1 (
        one_of "DISALLOW_COPY_AND_ASSIGN"
          ("DISALLOW_EVIL_CONSTRUCTORS" ∷ "DISALLOW_IMPLICIT_CONSTRUCTORS" ∷ []))

abbrev pub access_report : Text → ℕ → Kind → Found → List Action
access_report filename linenum (class_kind c) matched =
    if text_eq c.access (codes "private")
    then []
    else report filename linenum (codes "readability/constructors") 3
        (group_text matched 1 ++ codes " must be in the private: section")
      ∷ []
access_report filename linenum (namespace_kind n) matched = []
access_report filename linenum plain matched = []

abbrev pub access_in : Text → ℕ → List BlockInfo → Option Found → List Action
access_in filename linenum stack none = []
access_in filename linenum [] (some matched) = []
access_in filename linenum (b ∷ stack) (some matched) =
    access_report filename linenum b.kind matched

-- CheckAccess(filename, clean_lines, linenum, nesting_state, error)
unfoldable pub check_access : Text → CleansedLines → ℕ → List BlockInfo → List Action
unfolding match group_text text_eq
check_access filename clean linenum stack =
    access_in filename linenum stack (match re_disallow (get_or clean.elided linenum []))
