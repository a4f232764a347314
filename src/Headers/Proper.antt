-- ===== src/Headers/Proper.antt =====
-- The reports of `CheckIncludeLine` are proper.
use dmanix.Base.{ℕ, Bool, Option, none, some, Text, mem_text}
use dmanix.Regex.Search.{Found}
use dmanix.Lint.Categories.{error_categories}
use dmanix.Lint.Proper.{Proper, nil-Proper, proper_rules}
use dmanix.Headers.{IncludeState, Place}
use dmanix.Headers.Line.{new_include, include_or_repeat, on_include, on_stream, check_include_line}

new_include-Proper :
    (filename repository_name base_name : Text) (linenum : ℕ) (include : Text) (is_system : Bool)
    (s : IncludeState)
    → Proper filename (new_include filename repository_name base_name linenum include is_system s).0
unfolding new_include mem_text error_categories
new_include-Proper filename repository_name base_name linenum include is_system s =
    search proper_rules depth 8

include_or_repeat-Proper :
    (filename repository_name base_name : Text) (linenum : ℕ) (include : Text) (is_system : Bool)
    (s : IncludeState) (place : Option Place)
    → Proper filename
        (include_or_repeat filename repository_name base_name linenum include is_system s place).0
unfolding mem_text error_categories
include_or_repeat-Proper filename repository_name base_name linenum include is_system s none =
    new_include-Proper filename repository_name base_name linenum include is_system s
include_or_repeat-Proper filename repository_name base_name linenum include is_system s (some p) =
    search proper_rules

on_include-Proper :
    (filename repository_name base_name : Text) (linenum : ℕ) (s : IncludeState) (m : Option Found)
    → Proper filename (on_include filename repository_name base_name linenum s m).0
on_include-Proper filename repository_name base_name linenum s none = nil-Proper
on_include-Proper filename repository_name base_name linenum s (some m) =
    search include_or_repeat-Proper

on_stream-Proper :
    (filename : Text) (linenum : ℕ) (m : Option Found)
    → Proper filename (on_stream filename linenum m)
unfolding mem_text error_categories
on_stream-Proper filename linenum none = nil-Proper
on_stream-Proper filename linenum (some m) = search proper_rules

pub check_include_line-Proper :
    (filename repository_name base_name source_line : Text) (linenum : ℕ) (s : IncludeState)
    → Proper filename
        (check_include_line filename repository_name base_name source_line linenum s).0
unfolding check_include_line mem_text error_categories
check_include_line-Proper filename repository_name base_name source_line linenum s =
    search (proper_rules, on_include-Proper, on_stream-Proper)
