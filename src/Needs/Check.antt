-- ===== src/Needs/Check.antt =====
-- scripts/cpplint.py: `UpdateIncludeState` and `CheckForIncludeWhatYouUse`. Files are read by the argument
-- `open_file`, which gives the lines of a file, or `none` where it cannot be opened.
use dmanix.Base.{
  ℕ, ◌+◌, Bool, true, false, not, ◌&&◌, ◌||◌, Option, none, some, List, [], ◌∷◌, ◌++◌, map, reverse,
  Text, codes, ends_with, mem_char, is_some, if◌then◌else◌,
}
use dmanix.Regex.{end}
use dmanix.Regex.Chars.{◌⨾◌, lit}
use dmanix.Regex.Search.{Found, search_in, group_text, sub}
use dmanix.Lint.{Action, report}
use dmanix.Lines.{CleansedLines, cleanse_comments}
use dmanix.Headers.{Place, file_line}
use dmanix.Headers.Line.{re_include, place_of}
use dmanix.Headers.Names.{files_belong_to_same_module}
use dmanix.Needs.{Required, require_lines}

-- The map from headers to the places that include them.
abbrev pub Included : Type 0
Included = List (Text × Place)

-- include_state.setdefault(include, place)
abbrev set_default : Text → Place → Option Place → Included → Included
set_default include place (some _) included = included
set_default include place none included = (include, place) ∷ included

abbrev note_include : Text → ℕ → Included → Option Found → Included
note_include filename linenum included none = included
note_include filename linenum included (some m) =
    let include = group_text m 2 in
    set_default include (file_line filename linenum) (place_of include included) included

-- The loop over the lines of the header, from line `linenum` on.
unfoldable pub note_includes : Text → ℕ → List Text → Included → Included
unfolding search_in group_text place_of cleanse_comments
note_includes filename linenum [] included = included
note_includes filename linenum (l ∷ ls) included =
    note_includes filename (linenum + 1) ls
      (note_include filename linenum included (search_in re_include (cleanse_comments l)))

abbrev read_header : Text → Included → Option (List Text) → Included × Bool
read_header filename included none = (included, false)
read_header filename included (some headerfile) =
    (note_includes filename 1 headerfile included, true)

module _ (open_file : Text → Option (List Text)) where
  -- UpdateIncludeState(filename, include_state, io)
  unfoldable pub update_include_state : Text → Included → Included × Bool
  unfolding note_includes
  update_include_state filename included = read_header filename included (open_file filename)

  abbrev read_if : Bool × Text → Text → Included → Included × Bool
  unfolding update_include_state
  read_if (same_module, common_path) header included =
      if same_module
      then update_include_state (common_path ++ header) included
      else (included, false)

  -- The loop over the copied keys: the include state, and header_found.
  unfoldable pub read_headers : Text → List Text → Included → Included × Bool
  unfolding read_if files_belong_to_same_module
  read_headers abs_filename [] included = (included, false)
  read_headers abs_filename (header ∷ headers) included =
      let (read, found) =
        read_if (files_belong_to_same_module abs_filename header) header included in
      let (all_read, later) = read_headers abs_filename headers read in (all_read, found || later)

-- s.strip('<>"')
unfoldable pub lstrip_quotes : Text → Text
unfolding mem_char
lstrip_quotes [] = []
lstrip_quotes (c ∷ s) =
    let rest = lstrip_quotes s in if mem_char c (codes "<>\"") then rest else c ∷ s

unfoldable pub strip_quotes : Text → Text
unfolding lstrip_quotes
strip_quotes s = reverse (lstrip_quotes (reverse (lstrip_quotes s)))

-- The errors for the headers that are needed and not there.
unfoldable pub report_missing : Text → Included → Required → List Action
unfolding strip_quotes place_of
report_missing filename included [] = []
report_missing filename included ((header, (linenum, template)) ∷ required) =
    let rest = report_missing filename included required in
    if is_some (place_of (strip_quotes header) included)
    then rest
    else report filename linenum (codes "build/include_what_you_use") 4
        (codes "Add #include " ++ header ++ codes " for " ++ template)
      ∷ rest

-- re.sub(r'_flymake\.cc$', '.cc', abs_filename)
unfoldable pub without_flymake : Text → Text
unfolding sub
without_flymake = sub (lit "_flymake.cc" ⨾ end) (codes ".cc")

-- CheckForIncludeWhatYouUse(filename, clean_lines, include_state, error, io); `full_name` is
-- FileInfo(filename).FullName(). The errors come in the order in which the headers were first needed, where the
-- program has that of a dict.
unfoldable pub check_for_include_what_you_use :
    (Text → Option (List Text)) → Text → Text → CleansedLines → Included → List Action
unfolding require_lines read_headers report_missing without_flymake ends_with
check_for_include_what_you_use open_file full_name filename clean included =
    let required = require_lines 0 clean.elided [] in
    let (all_read, header_found) =
      read_headers open_file (without_flymake full_name) (map (λ e. e.0) included) included in
    if ends_with filename (codes ".cc") && not header_found
    then []
    else report_missing filename all_read required
