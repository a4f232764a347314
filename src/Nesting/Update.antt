-- ===== src/Nesting/Update.antt =====
-- scripts/cpplint.py: `Update` and `CheckClassFinished`.
use dmanix.Base.{
  ℕ, zero, suc, true, Option, none, some, List, [], ◌∷◌, ◌++◌, Text, codes, get_or, length, text_eq,
  if◌then◌else◌,
}
use dmanix.Regex.{Regex, group, star, start, end}
use dmanix.Regex.Chars.{◌⨾◌, in_set, not_in_set, dot}
use dmanix.Regex.Search.{match, matches, group_text}
use dmanix.Lint.{Action, report}
use dmanix.Lines.{CleansedLines}
use dmanix.Nesting.{
  no_asm, block_asm, Kind, plain, class_kind, namespace_kind, BlockInfo, new_block, NestingState,
}
use dmanix.Nesting.Preprocessor.{update_preprocessor}
use dmanix.Nesting.Blocks.{count_parentheses, check_begin, check_end, re_match_asm}
use dmanix.Nesting.Declarations.{take_namespaces, take_class, update_access}

abbrev pub with_actions :
    List Action → Option (List BlockInfo × List Action) → Option (List BlockInfo × List Action)
with_actions actions none = none
with_actions actions (some (stack, later)) = some (stack, actions ++ later)

-- ^[^{;)}]*([{;)}])(.*)$, in two parts
abbrev pub token_head : Regex
token_head = start ⨾ star (not_in_set "{;)}") ⨾ group 1 (in_set "{;)}")

abbrev pub token_rest : Regex
token_rest = group 2 (star dot) ⨾ end

abbrev pub pushed_block : Text → BlockInfo
pushed_block line = record (new_block true plain) {
  inline_asm = if matches re_match_asm line then block_asm else no_asm;
}

-- `{` completes a head that still waits for it, and opens a block otherwise.
abbrev pub open_brace : Text → List BlockInfo → List BlockInfo
open_brace line [] = pushed_block line ∷ []
open_brace line (b ∷ stack) =
    if b.seen_open_brace
    then pushed_block line ∷ b ∷ stack
    else record b { seen_open_brace = true } ∷ stack

-- `;` and `)` drop a head that still waits for its brace.
abbrev pub end_head : List BlockInfo → List BlockInfo
end_head [] = []
end_head (b ∷ stack) = if b.seen_open_brace then b ∷ stack else stack

abbrev pub close_block : List BlockInfo → List BlockInfo
close_block [] = []
close_block (b ∷ stack) = stack

abbrev pub close_actions : Text → Text → ℕ → List BlockInfo → List Action
close_actions filename raw_line linenum [] = []
close_actions filename raw_line linenum (b ∷ stack) = check_end filename raw_line linenum b.kind

-- One token; `line` is the text that the token was found in.
abbrev pub token_stack : Text → Text → List BlockInfo → List BlockInfo
token_stack token line stack =
    if text_eq token (codes "{")
    then open_brace line stack
    else if text_eq token (codes "}")
    then close_block stack
    else end_head stack

abbrev pub token_actions : Text → Text → Text → ℕ → List BlockInfo → List Action
token_actions token filename raw_line linenum stack =
    if text_eq token (codes "}") then close_actions filename raw_line linenum stack else []

-- The loop over braces, semicolons and closing parentheses, on fuel.
unfoldable pub take_tokens :
    ℕ → Text → Text → ℕ → Text → List BlockInfo → Option (List BlockInfo × List Action)
unfolding match group_text text_eq matches
take_tokens zero filename raw_line linenum line stack = none
take_tokens (suc fuel) filename raw_line linenum line stack =
    elim (match (token_head ⨾ token_rest) line) [
      | none ↦ some (stack, [])
      | some m ↦ with_actions (token_actions (group_text m 1) filename raw_line linenum stack) (
          take_tokens fuel filename raw_line linenum (group_text m 2)
            (token_stack (group_text m 1) line stack))
    ]

-- The checks on a head that still waits for its brace.
abbrev pub begin_head : Text → List BlockInfo → List BlockInfo
begin_head line [] = []
begin_head line (b ∷ stack) = if b.seen_open_brace then b ∷ stack else check_begin line b ∷ stack

-- The part of Update behind the namespaces; `line` is clean_lines.elided[linenum].
abbrev pub update_rest :
    Text → CleansedLines → ℕ → Text × List BlockInfo → Option (List BlockInfo × List Action)
update_rest filename clean linenum (rest, stack) =
    let (rest', stack') = take_class clean linenum rest stack in
    let begun = begin_head (get_or clean.elided linenum []) stack' in
    take_tokens (suc (length rest')) filename (get_or clean.raw_lines linenum []) linenum rest'
      (update_access rest' begun)

abbrev pub bind_rest :
    Option (Text × List BlockInfo)
    → (Text × List BlockInfo → Option (List BlockInfo × List Action))
    → Option (List BlockInfo × List Action)
bind_rest none f = none
bind_rest (some r) f = f r

abbrev pub with_stack :
    NestingState → Option (List BlockInfo × List Action) → Option (NestingState × List Action)
with_stack s none = none
with_stack s (some (stack, actions)) = some (record s { stack = stack }, actions)

-- Update(filename, clean_lines, linenum, error), for the number of a line of the file. Each loop has fuel
-- for every character of its text.
unfoldable pub update :
    Text → CleansedLines → ℕ → NestingState → Option (NestingState × List Action)
unfolding update_preprocessor count_parentheses take_namespaces take_class check_begin update_access
    take_tokens
update filename clean linenum s =
    let line = get_or clean.elided linenum [] in
    let directed = update_preprocessor line s in
    let counted = count_parentheses line directed.stack in
    with_stack directed (
      bind_rest (take_namespaces (suc (length line)) linenum line counted)
        (update_rest filename clean linenum))

abbrev pub unfinished : Text → Kind → List Action
unfinished filename (class_kind c) =
    report filename c.starting_linenum (codes "build/class") 5
      (codes "Failed to find complete declaration of class " ++ c.name)
    ∷ []
unfinished filename (namespace_kind n) = []
unfinished filename plain = []

-- The loop of CheckClassFinished, from the outermost block on.
unfoldable pub check_class_finished : Text → List BlockInfo → List Action
check_class_finished filename [] = []
check_class_finished filename (b ∷ stack) =
    check_class_finished filename stack ++ unfinished filename b.kind
