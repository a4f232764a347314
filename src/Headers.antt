-- ===== src/Headers.antt =====
-- scripts/cpplint.py: `_IncludeState`, the order of the #include lines.
pub mod Proper
pub mod Order
pub mod Known
pub mod Classify
pub mod Line
pub mod Once
pub mod Names
pub mod Modules
pub mod Family
mod Examples
use dmanix.Base.{
  ℕ, suc, Bool, true, false, List, [], ◌∷◌, ◌++◌, Text, codes, lower, replace, text_le, leb, ◌==◌,
  not, if◌then◌else◌,
}

pub data HeaderType : Type 0 where
  c_sys_header cpp_sys_header likely_my_header possible_my_header other_header : HeaderType

-- _INITIAL_SECTION to _OTHER_H_SECTION
abbrev pub initial_section : ℕ
initial_section = 0

abbrev pub my_h_section : ℕ
my_h_section = 1

abbrev pub c_section : ℕ
c_section = 2

abbrev pub cpp_section : ℕ
cpp_section = 3

abbrev pub other_h_section : ℕ
other_h_section = 4

-- The value beside a header's name: the line that includes it, or the file and line that do.
pub data Place : Type 0 where
  line : ℕ → Place
  file_line : Text → ℕ → Place

pub record IncludeState : Type 0 where
  pub included : List (Text × Place)
  pub section : ℕ
  pub last_header : Text

abbrev pub new_include_state : IncludeState
new_include_state = record { included = []; section = initial_section; last_header = [] }

unfoldable pub type_name : HeaderType → Text
type_name c_sys_header = codes "C system header"
type_name cpp_sys_header = codes "C++ system header"
type_name likely_my_header = codes "header this file implements"
type_name possible_my_header = codes "header this file may implement"
type_name other_header = codes "other header"

unfoldable pub section_name : ℕ → Text
section_name s =
    if s == my_h_section
    then codes "a header this file implements"
    else if s == c_section
    then codes "C system header"
    else if s == cpp_section
    then codes "C++ system header"
    else if s == other_h_section
    then codes "other header"
    else codes "... nothing. (This can't be an error.)"

unfoldable pub canonicalize_alphabetical_order : Text → Text
unfolding replace lower
canonicalize_alphabetical_order header_path =
    lower (replace (codes "-") (codes "_") (replace (codes "-inl.h") (codes ".h") header_path))

-- self._last_header > canonical_header
unfoldable pub is_in_alphabetical_order : Text → IncludeState → Bool × IncludeState
is_in_alphabetical_order header_path s =
    let canonical_header = canonicalize_alphabetical_order header_path in
    if text_le s.last_header canonical_header
    then (true, record s { last_header = canonical_header })
    else (false, s)

unfoldable pub order_message : HeaderType → ℕ → Text
order_message t s = codes "Found " ++ type_name t ++ codes " after " ++ section_name s

-- The section after a header that is in order.
abbrev pub enter : ℕ → IncludeState → IncludeState
enter section s =
    if s.section == section then s else record s { section = section; last_header = [] }

abbrev my_section : IncludeState → ℕ
my_section s = if leb s.section my_h_section then my_h_section else other_h_section

-- The error message, empty where the header is in order, and the new state.
unfoldable pub check_next_include_order : HeaderType → IncludeState → Text × IncludeState
check_next_include_order c_sys_header s =
    if leb s.section c_section
    then ([], enter c_section s)
    else (order_message c_sys_header s.section, record s { last_header = [] })
check_next_include_order cpp_sys_header s =
    if leb s.section cpp_section
    then ([], enter cpp_section s)
    else (order_message cpp_sys_header s.section, record s { last_header = [] })
check_next_include_order likely_my_header s = ([], enter (my_section s) s)
check_next_include_order possible_my_header s = ([], enter (my_section s) s)
check_next_include_order other_header s = ([], enter other_h_section s)
