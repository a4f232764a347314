-- ===== src/Layout/Proper.antt =====
-- The reports of the checks of braces, loops and sections are proper.
use dmanix.Base.{ℕ, List, [], ◌∷◌, Option, none, some, Text, mem_text, get_or}
use dmanix.Regex.Search.{Found, match}
use dmanix.Lint.{Action}
use dmanix.Lint.Categories.{error_categories}
use dmanix.Lint.Proper.{Proper, ProperIfSome, nil-Proper, proper_rules}
use dmanix.Lines.{CleansedLines}
use dmanix.Brackets.{Closed}
use dmanix.Nesting.{Kind, plain, class_kind, namespace_kind, ClassInfo, BlockInfo}
use dmanix.Layout.{
  brace_actions, finish_braces, check_braces, join_lines, get_previous_non_blank_line,
}
use dmanix.Layout.Loops.{empty_body, body_of, check_empty_loop_body}
use dmanix.Layout.Sections.{
  section_report, check_section_spacing, access_report, access_in, check_access, re_disallow,
}

brace_actions-Proper :
    (filename : Text) (clean : CleansedLines) (linenum : ℕ) (line prevline : Text)
    → Proper filename (brace_actions filename clean linenum line prevline)
unfolding mem_text error_categories
brace_actions-Proper filename clean linenum line prevline = search proper_rules

finish_braces-Proper :
    (filename : Text) (linenum : ℕ) (actions : List Action)
    → Proper filename actions
    → (joined : Option Text) → ProperIfSome filename (finish_braces filename linenum actions joined)
unfolding mem_text error_categories
finish_braces-Proper filename linenum actions h none = tt
finish_braces-Proper filename linenum actions h (some joined) = search proper_rules

pub check_braces-Proper :
    (fuel : ℕ) (filename : Text) (clean : CleansedLines) (linenum : ℕ)
    → ProperIfSome filename (check_braces fuel filename clean linenum)
unfolding check_braces
check_braces-Proper fuel filename clean linenum =
    let line = get_or clean.elided linenum [] in
    let prevline = (get_previous_non_blank_line clean.elided (some linenum)).0 in
    finish_braces-Proper filename linenum (brace_actions filename clean linenum line prevline)
      (brace_actions-Proper filename clean linenum line prevline)
      (join_lines fuel clean.elided line (some linenum))

empty_body-Proper :
    (filename : Text) (c : Closed) (end_pos : Option ℕ)
    → Proper filename (empty_body filename c end_pos)
unfolding mem_text error_categories
empty_body-Proper filename c none = nil-Proper
empty_body-Proper filename c (some end_pos) = search proper_rules

body_of-Proper : (filename : Text) (c : Option Closed) → Proper filename (body_of filename c)
body_of-Proper filename none = nil-Proper
body_of-Proper filename (some c) = empty_body-Proper filename c c.end_pos

pub check_empty_loop_body-Proper :
    (filename : Text) (clean : CleansedLines) (linenum : ℕ)
    → Proper filename (check_empty_loop_body filename clean linenum)
unfolding check_empty_loop_body
check_empty_loop_body-Proper filename clean linenum = search (proper_rules, body_of-Proper)

section_report-Proper :
    (filename : Text) (clean : CleansedLines) (class_info : ClassInfo) (linenum : ℕ)
    (m : Option Found)
    → Proper filename (section_report filename clean class_info linenum m)
unfolding mem_text error_categories
section_report-Proper filename clean class_info linenum none = nil-Proper
section_report-Proper filename clean class_info linenum (some m) = search proper_rules

pub check_section_spacing-Proper :
    (filename : Text) (clean : CleansedLines) (class_info : ClassInfo) (linenum : ℕ)
    → Proper filename (check_section_spacing filename clean class_info linenum)
unfolding check_section_spacing
check_section_spacing-Proper filename clean class_info linenum =
    search (proper_rules, section_report-Proper)

access_report-Proper :
    (filename : Text) (linenum : ℕ) (kind : Kind) (m : Found)
    → Proper filename (access_report filename linenum kind m)
unfolding mem_text error_categories
access_report-Proper filename linenum (class_kind c) m = search proper_rules
access_report-Proper filename linenum (namespace_kind n) m = nil-Proper
access_report-Proper filename linenum plain m = nil-Proper

access_in-Proper :
    (filename : Text) (linenum : ℕ) (stack : List BlockInfo) (m : Option Found)
    → Proper filename (access_in filename linenum stack m)
access_in-Proper filename linenum stack none = nil-Proper
access_in-Proper filename linenum [] (some m) = nil-Proper
access_in-Proper filename linenum (b ∷ stack) (some m) =
    access_report-Proper filename linenum b.kind m

pub check_access-Proper :
    (filename : Text) (clean : CleansedLines) (linenum : ℕ) (stack : List BlockInfo)
    → Proper filename (check_access filename clean linenum stack)
unfolding check_access
check_access-Proper filename clean linenum stack =
    access_in-Proper filename linenum stack (match re_disallow (get_or clean.elided linenum []))
