-- ===== src/Needs.antt =====
-- scripts/cpplint.py: the headers that a file needs for what it uses of the standard library, in
-- `CheckForIncludeWhatYouUse` with its tables. Names with a header are a list in the order of the tables.
pub mod Check
pub mod Silent
mod Examples
use mathlib.Core.List.{flat_map}
use dmanix.Base.{
  ℕ, suc, ◌+◌, Bool, true, false, not, ◌||◌, Option, none, some, List, [], ◌∷◌, ◌++◌, map, reverse,
  Text, String, codes, ends_with, text_eq, mem_char, ◌==◌, if◌then◌else◌,
}
use dmanix.Regex.{Regex, one, group, star, boundary, lazy}
use dmanix.Regex.Chars.{◌⨾◌, ◌⊕◌, chr, lit, literal, in_set, not_in_set, dot, space, opt}
use dmanix.Regex.Search.{Found, search_in, occurs}

-- _HEADERS_CONTAINING_TEMPLATES
abbrev pub headers_containing_templates : List (String × List String)
headers_containing_templates =
    ("<deque>", "deque" ∷ [])
    ∷ (
      "<functional>",
      "unary_function" ∷ "binary_function" ∷ "plus" ∷ "minus" ∷ "multiplies" ∷ "divides" ∷ "modulus"
          ∷ "negate" ∷ "equal_to" ∷ "not_equal_to" ∷ "greater" ∷ "less" ∷ "greater_equal"
          ∷ "less_equal" ∷ "logical_and" ∷ "logical_or" ∷ "logical_not" ∷ "unary_negate" ∷ "not1"
          ∷ "binary_negate" ∷ "not2" ∷ "bind1st" ∷ "bind2nd" ∷ "pointer_to_unary_function"
          ∷ "pointer_to_binary_function" ∷ "ptr_fun" ∷ "mem_fun_t" ∷ "mem_fun" ∷ "mem_fun1_t"
          ∷ "mem_fun1_ref_t" ∷ "mem_fun_ref_t" ∷ "const_mem_fun_t" ∷ "const_mem_fun1_t"
          ∷ "const_mem_fun_ref_t" ∷ "const_mem_fun1_ref_t" ∷ "mem_fun_ref" ∷ [],
    )
    ∷ ("<limits>", "numeric_limits" ∷ [])
    ∷ ("<list>", "list" ∷ [])
    ∷ ("<map>", "map" ∷ "multimap" ∷ [])
    ∷ ("<memory>", "allocator" ∷ [])
    ∷ ("<queue>", "queue" ∷ "priority_queue" ∷ [])
    ∷ ("<set>", "set" ∷ "multiset" ∷ [])
    ∷ ("<stack>", "stack" ∷ [])
    ∷ ("<string>", "char_traits" ∷ "basic_string" ∷ [])
    ∷ ("<utility>", "pair" ∷ [])
    ∷ ("<vector>", "vector" ∷ [])
    ∷ ("<hash_map>", "hash_map" ∷ "hash_multimap" ∷ [])
    ∷ ("<hash_set>", "hash_set" ∷ "hash_multiset" ∷ [])
    ∷ ("<slist>", "slist" ∷ [])
    ∷ []

abbrev pub algorithms : List String
algorithms = "copy" ∷ "max" ∷ "min" ∷ "min_element" ∷ "sort" ∷ "swap" ∷ "transform" ∷ []

-- A use of the library: the header, and the name to report.
abbrev pub Use : Type 0
Use = Text × Text

-- \bstring\b
abbrev re_string : Regex
re_string = boundary ⨾ lit "string" ⨾ boundary

-- The text in front of the name: in a namespace other than std, it is another string.
abbrev string_use : Option Found → List Use
string_use none = []
string_use (some m) =
    let prefix = reverse m.from.before in
    if ends_with prefix (codes "std::") || not (ends_with prefix (codes "::"))
    then (codes "<string>", codes "string") ∷ []
    else []

-- [^>.]\bNAME(<.*?>)?\([^\)]
abbrev re_algorithm : String → Regex
re_algorithm name =
    not_in_set ">."
    ⨾ boundary
    ⨾ lit name
    ⨾ opt (group 1 (chr b'<' ⨾ lazy dot ⨾ chr b'>'))
    ⨾ chr b'('
    ⨾ not_in_set ")"

-- (\<|\b)NAME\s*\<
abbrev re_template : String → Regex
re_template name = group 1 (chr b'<' ⊕ boundary) ⨾ lit name ⨾ star space ⨾ chr b'<'

unfoldable pub algorithm_uses : Text → List String → List Use
unfolding occurs
algorithm_uses line [] = []
algorithm_uses line (name ∷ names) =
    let rest = algorithm_uses line names in
    if occurs (re_algorithm name) line then (codes "<algorithm>", codes name) ∷ rest else rest

unfoldable pub template_uses : Text → Text → List String → List Use
unfolding occurs
template_uses line header [] = []
template_uses line header (name ∷ names) =
    let rest = template_uses line header names in
    if occurs (re_template name) line then (header, codes name ++ codes "<>") ∷ rest else rest

unfoldable pub header_uses : Text → List (String × List String) → List Use
unfolding template_uses
header_uses line [] = []
header_uses line ((header, names) ∷ headers) =
    template_uses line (codes header) names ++ header_uses line headers

-- not line or line[0] == '#'
abbrev pub is_skipped : Text → Bool
is_skipped [] = true
is_skipped (c ∷ _) = c == b'#'

-- What one line uses, in the order in which the loop writes it down.
unfoldable pub line_uses : Text → List Use
unfolding search_in ends_with algorithm_uses header_uses mem_char
line_uses line =
    if is_skipped line
    then []
    else string_use (search_in re_string line)
      ++ algorithm_uses line algorithms
      ++ (if mem_char b'<' line then header_uses line headers_containing_templates else [])

-- The map `required`: for a header, the line and the name.
abbrev pub Required : Type 0
Required = List (Text × (ℕ × Text))

-- required[header] = reason
unfoldable pub put : Text → ℕ × Text → Required → Required
unfolding text_eq
put header reason [] = (header, reason) ∷ []
put header reason ((h, r) ∷ required) =
    let rest = put header reason required in
    if text_eq h header then (h, reason) ∷ required else (h, r) ∷ rest

unfoldable pub put_uses : ℕ → List Use → Required → Required
unfolding put
put_uses linenum [] required = required
put_uses linenum ((header, template) ∷ uses) required =
    put_uses linenum uses (put header (linenum, template) required)

-- The loop over the lines, from line `linenum` on.
unfoldable pub require_lines : ℕ → List Text → Required → Required
unfolding put_uses line_uses
require_lines linenum [] required = required
require_lines linenum (line ∷ lines) required =
    require_lines (linenum + 1) lines (put_uses linenum (line_uses line) required)
