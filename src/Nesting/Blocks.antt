-- ===== src/Nesting/Blocks.antt =====
-- scripts/cpplint.py: the methods of the blocks, and the count of parentheses and of assembly.
use mathlib.Core.Bool.{not}
use dmanix.Base.{
  ℕ, zero, suc, ◌+◌, Bool, true, false, ◌&&◌, Option, none, some, List, [], ◌∷◌, ◌++◌, Text, codes,
  text_eq, count_char, drop, ltb, if◌then◌else◌,
}
use dmanix.Base.Int.{ℤ, sub_ℕ, ◌+ℤ◌, is_zero}
use dmanix.Regex.{Regex, group, star, start, end, boundary}
use dmanix.Regex.Chars.{
  ◌⨾◌, ◌⊕◌, chr, lit, literal, in_set, not_in_set, dot, space, plus, opt, one_of,
}
use dmanix.Regex.Search.{matches, occurs}
use dmanix.Lint.{Action, report}
use dmanix.Lines.{CleansedLines}
use dmanix.Nesting.{
  InlineAsm, no_asm, inside_asm, end_asm, block_asm, NamespaceInfo, Kind, plain, class_kind,
  namespace_kind, BlockInfo, new_block,
}

-- The loop for self.last_line: the line, from `i` on, where the braces are balanced again, or 0.
unfoldable pub last_line_from : ℕ → ℤ → List Text → ℕ
unfolding count_char ◌+ℤ◌
last_line_from i depth [] = 0
last_line_from i depth (line ∷ rest) =
    let after = depth +ℤ sub_ℕ (count_char b'{' line) (count_char b'}' line) in
    let later = last_line_from (i + 1) after rest in if is_zero after then i else later

-- _ClassInfo(name, class_or_struct, clean_lines, linenum)
unfoldable pub class_info : Text → Text → CleansedLines → ℕ → BlockInfo
unfolding last_line_from text_eq
class_info name class_or_struct clean linenum = new_block false (
    class_kind (record {
      name = name;
      starting_linenum = linenum;
      is_derived = false;
      access = if text_eq class_or_struct (codes "struct") then codes "public" else codes "private";
      last_line = last_line_from linenum (ℤ.pos 0) (drop linenum clean.elided);
    }))

abbrev name_or_nil : Option Text → Text
name_or_nil none = []
name_or_nil (some t) = t

-- _NamespaceInfo(name, linenum)
unfoldable pub namespace_info : Option Text → ℕ → BlockInfo
namespace_info name linenum =
    new_block false
      (namespace_kind (record { name = name_or_nil name; starting_linenum = linenum }))

-- (^|[^:]):($|[^:])
abbrev re_bare_colon : Regex
re_bare_colon = group 1 (start ⊕ not_in_set ":") ⨾ chr b':' ⨾ group 2 (end ⊕ not_in_set ":")

abbrev derived : Kind → Kind
derived (class_kind c) = class_kind (record c { is_derived = true })
derived (namespace_kind n) = namespace_kind n
derived plain = plain

-- CheckBegin: only a class has one.
unfoldable pub check_begin : Text → BlockInfo → BlockInfo
unfolding occurs
check_begin line b = if occurs re_bare_colon line then record b { kind = derived b.kind } else b

-- };*\s*(//|/\*).*\bnamespace
abbrev end_comment : Regex
end_comment =
    chr b'}'
    ⨾ star (chr b';')
    ⨾ star space
    ⨾ group 1 (lit "//" ⊕ lit "/*")
    ⨾ star dot
    ⨾ boundary
    ⨾ lit "namespace"

-- [\*/\.\\\s]*$
abbrev comment_tail : Regex
comment_tail = star (in_set "*/.\\" ⊕ space) ⨾ end

abbrev end_message : Text → Text → Text
end_message [] message = message
end_message (c ∷ name) message = message ++ b' ' ∷ c ∷ name

abbrev well_ended : Text → Text → Bool
well_ended [] line = matches (end_comment ⨾ comment_tail) line
well_ended (c ∷ name) line =
    matches (end_comment ⨾ plus space ⨾ literal (c ∷ name) ⨾ comment_tail) line

-- CheckEnd of a namespace; `raw_line` is clean_lines.raw_lines[linenum].
unfoldable pub check_namespace_end : Text → Text → ℕ → NamespaceInfo → List Action
unfolding matches
check_namespace_end filename raw_line linenum n =
    if ltb linenum (n.starting_linenum + 10) && not (matches (end_comment ⨾ boundary) raw_line)
    then []
    else if well_ended n.name raw_line
    then []
    else report filename linenum (codes "readability/namespace") 5 (
        codes "Namespace should be terminated with \""
        ++ end_message n.name (codes "// namespace")
        ++ codes "\"")
      ∷ []

abbrev pub check_end : Text → Text → ℕ → Kind → List Action
check_end filename raw_line linenum (namespace_kind n) =
    check_namespace_end filename raw_line linenum n
check_end filename raw_line linenum (class_kind c) = []
check_end filename raw_line linenum plain = []

-- ^\s*(?:asm|_asm|__asm|__asm__)(?:\s+(volatile|__volatile__))?\s*[{(]
abbrev pub re_match_asm : Regex
re_match_asm =
    start
    ⨾ star space
    ⨾ one_of "asm" ("_asm" ∷ "__asm" ∷ "__asm__" ∷ [])
    ⨾ opt (plus space ⨾ group 1 (lit "volatile" ⊕ lit "__volatile__"))
    ⨾ star space
    ⨾ in_set "{("

abbrev is_one : ℤ → Bool
is_one (ℤ.pos (suc zero)) = true
is_one (ℤ.pos (suc (suc n))) = false
is_one (ℤ.pos zero) = false
is_one (ℤ.negsuc n) = false

-- The assembly state of the innermost block behind the line.
abbrev next_asm : InlineAsm → Bool → Bool → InlineAsm
next_asm no_asm enters leaves = if enters then inside_asm else no_asm
next_asm end_asm enters leaves = if enters then inside_asm else no_asm
next_asm inside_asm enters leaves = if leaves then end_asm else inside_asm
next_asm block_asm enters leaves = block_asm

-- The part of Update that counts parentheses.
unfoldable pub count_parentheses : Text → List BlockInfo → List BlockInfo
unfolding matches count_char ◌+ℤ◌
count_parentheses line [] = []
count_parentheses line (b ∷ stack) =
    let depth_change = sub_ℕ (count_char b'(' line) (count_char b')' line) in
    let open_parentheses = b.open_parentheses +ℤ depth_change in
    record b {
      open_parentheses = open_parentheses;
      inline_asm =
          next_asm b.inline_asm
            (not (is_zero depth_change) && is_one open_parentheses && matches re_match_asm line)
            (is_zero open_parentheses);
    }
    ∷ stack
