-- ===== src/Nesting/Declarations.antt =====
-- scripts/cpplint.py: the declarations that `Update` takes from the front of a line.
use dmanix.Base.{
  ℕ, zero, suc, ◌+◌, Bool, true, false, ◌&&◌, ◌||◌, Option, none, some, List, [], ◌∷◌, Text, codes,
  find, drop, leb, ◌==◌, if◌then◌else◌,
}
use dmanix.Base.Int.{is_zero}
use dmanix.Regex.{Regex, one, group, star, start, end, boundary}
use dmanix.Regex.Chars.{◌⨾◌, ◌⊕◌, chr, lit, in_set, not_in_set, dot, space, word_char, plus, opt}
use dmanix.Regex.Search.{Found, match, group_of, group_text}
use dmanix.Lines.{CleansedLines}
use dmanix.Nesting.{Kind, plain, class_kind, namespace_kind, BlockInfo}
use dmanix.Nesting.Blocks.{class_info, namespace_info}

-- ^\s*namespace\b\s*([:\w]+)?(.*)$, in two parts
abbrev pub namespace_head : Regex
namespace_head = start ⨾ star space ⨾ lit "namespace"

abbrev pub namespace_rest : Regex
namespace_rest =
    boundary ⨾ star space ⨾ opt (group 1 (plus (chr b':' ⊕ word_char))) ⨾ group 2 (star dot) ⨾ end

abbrev pub cut_brace : Text → Option ℕ → Text
cut_brace line none = line
cut_brace line (some i) = drop (i + 1) line

abbrev pub is_there : Option ℕ → Bool
is_there none = false
is_there (some i) = true

abbrev pub after_namespace : Text → Text
after_namespace line = cut_brace line (find line (codes "{"))

abbrev pub push_namespace : Found → ℕ → List BlockInfo → List BlockInfo
push_namespace m linenum stack =
    record (namespace_info (group_of m 1) linenum) {
      seen_open_brace = is_there (find (group_text m 2) (codes "{"));
    }
    ∷ stack

-- The loop over the namespaces at the front of the line, on fuel: what is left of the line, and the
-- stack.
unfoldable pub take_namespaces : ℕ → ℕ → Text → List BlockInfo → Option (Text × List BlockInfo)
unfolding match group_of group_text find namespace_info
take_namespaces zero linenum line stack = none
take_namespaces (suc fuel) linenum line stack =
    elim (match (namespace_head ⨾ namespace_rest) line) [
      | none ↦ some (line, stack)
      | some m ↦
          take_namespaces fuel linenum (after_namespace (group_text m 2))
            (push_namespace m linenum stack)
    ]

-- \s*(template\s*<[\w\s<>,:]*>\s*)?(class|struct)\s+([A-Z_]+\s+)*(\w+(?:::\w+)*)(([^=>]|<[^<>]*>)*)$
abbrev pub re_class : Regex
re_class =
    star space
    ⨾ opt (
        group 1 (
          lit "template"
          ⨾ star space
          ⨾ chr b'<'
          ⨾ star (word_char ⊕ space ⊕ in_set "<>,:")
          ⨾ chr b'>'
          ⨾ star space))
    ⨾ group 2 (lit "class" ⊕ lit "struct")
    ⨾ plus space
    ⨾ star (group 3 (plus (one (λ c. c == 95 || leb b'A' c && leb c b'Z')) ⨾ plus space))
    ⨾ group 4 (plus word_char ⨾ star (lit "::" ⨾ plus word_char))
    ⨾ group 5 (star (group 6 (not_in_set "=>" ⊕ chr b'<' ⨾ star (not_in_set "<>") ⨾ chr b'>')))
    ⨾ end

abbrev no_open_parentheses : List BlockInfo → Bool
no_open_parentheses [] = true
no_open_parentheses (b ∷ _) = is_zero b.open_parentheses

abbrev push_class : CleansedLines → ℕ → Text → List BlockInfo → Option Found → Text × List BlockInfo
push_class clean linenum line stack none = (line, stack)
push_class clean linenum line stack (some m) =
    if no_open_parentheses stack
    then (group_text m 5, class_info (group_text m 4) (group_text m 2) clean linenum ∷ stack)
    else (line, stack)

-- A class declaration in what is left of the line.
unfoldable pub take_class : CleansedLines → ℕ → Text → List BlockInfo → Text × List BlockInfo
unfolding match group_text class_info
take_class clean linenum line stack = push_class clean linenum line stack (match re_class line)

-- \s*(public|private|protected)\s*:
abbrev pub re_access : Regex
re_access =
    star space ⨾ group 1 (lit "public" ⊕ lit "private" ⊕ lit "protected") ⨾ star space ⨾ chr b':'

abbrev with_access : Text → Kind → Kind
with_access access (class_kind c) = class_kind (record c { access = access })
with_access access (namespace_kind n) = namespace_kind n
with_access access plain = plain

abbrev pub set_access : Option Found → BlockInfo → BlockInfo
set_access none b = b
set_access (some m) b = record b { kind = with_access (group_text m 1) b.kind }

-- The access control of the class whose body the line is in.
unfoldable pub update_access : Text → List BlockInfo → List BlockInfo
unfolding match group_text
update_access line [] = []
update_access line (b ∷ stack) = set_access (match re_access line) b ∷ stack
