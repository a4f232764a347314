-- ===== src/Nesting/Height.antt =====
-- The height of the stack behind a line that declares nothing: a count of its braces.
use dmanix.Base.{
  ℕ, suc, ◌-◌, ◌+◌, ◌≡◌, refl, sym, ap, ◌∙◌, inl, inr, true, false, Option, none, some, List, [],
  ◌∷◌, All, Text, get_or, length, ◌==◌, text_eq, mem_char, Bool-cases, arith, if◌then◌else◌,
}
use dmanix.Regex.Chars.{◌⨾◌}
use dmanix.Regex.Search.{Found, match}
use dmanix.Regex.FirstOf.{NoNewline}
use dmanix.Lint.{Action}
use dmanix.Lines.{CleansedLines}
use dmanix.Nesting.{BlockInfo, NestingState}
use dmanix.Nesting.Preprocessor.{no_directive, directive_of, update_preprocessor, apply_directive}
use dmanix.Nesting.Blocks.{count_parentheses}
use dmanix.Nesting.Declarations.{
  namespace_head, namespace_rest, take_namespaces, take_class, re_class, update_access, set_access,
  re_access,
}
use dmanix.Nesting.Update.{open_brace, end_head, close_block, token_stack, begin_head, update}
use dmanix.Nesting.Braces.{is_token, walk, take_tokens-walk}

-- No block waits for its opening brace.
abbrev pub AllSeen : List BlockInfo → Type 0
AllSeen stack = All (λ (b : BlockInfo). b.seen_open_brace ≡ true) stack

-- One up at `{`, one down at `}`, but never below 0.
abbrev brace_step : ℕ → ℕ → ℕ
brace_step c n = if c == b'{' then n + 1 else if c == b'}' then n - 1 else n

abbrev pub brace_height : Text → ℕ → ℕ
brace_height [] n = n
brace_height (c ∷ s) n = brace_height s (brace_step c n)

record Grown (n : ℕ) (stack : List BlockInfo) : Type 0 where
  all_seen : AllSeen stack
  height : length stack ≡ n

open_brace-Grown :
    (line : Text) (stack : List BlockInfo)
    → AllSeen stack
    → Grown (length stack + 1) (open_brace line stack)
open_brace-Grown line [] h = record { all_seen = (refl, tt); height = refl }
open_brace-Grown line (b ∷ stack) h =
    simp h.0 (record { all_seen = (refl, h); height = omega arith })

close_block-Grown :
    (stack : List BlockInfo) → AllSeen stack → Grown (length stack - 1) (close_block stack)
close_block-Grown [] h = record { all_seen = tt; height = refl }
close_block-Grown (b ∷ stack) h = record { all_seen = h.1; height = omega arith }

end_head-Grown : (stack : List BlockInfo) → AllSeen stack → Grown (length stack) (end_head stack)
end_head-Grown [] h = record { all_seen = tt; height = refl }
end_head-Grown (b ∷ stack) h = simp h.0 (record { all_seen = h; height = refl })

token_stack-Grown :
    (c : ℕ) (segment : Text) (stack : List BlockInfo)
    → AllSeen stack
    → Grown (brace_step c (length stack)) (token_stack (c ∷ []) segment stack)
unfolding text_eq
token_stack-Grown c segment stack h = elim (Bool-cases (c == b'{')) [
  | inl e ↦ rw e (open_brace-Grown segment stack h)
  | inr e ↦ elim (Bool-cases (c == b'}')) [
    | inl f ↦ rw (e, f) (close_block-Grown stack h)
    | inr f ↦ rw (e, f) (end_head-Grown stack h)
  ]
]

brace_step-other : (c n : ℕ) → is_token c ≡ false → brace_step c n ≡ n
unfolding mem_char
brace_step-other c n h = ground arith

walk-Grown :
    (filename raw_line : Text) (linenum : ℕ) (segment s : Text) (stack : List BlockInfo)
    → AllSeen stack
    → Grown (brace_height s (length stack)) (walk filename raw_line linenum segment s stack).0
unfolding walk
walk-Grown filename raw_line linenum segment [] stack h = record { all_seen = h; height = refl }
walk-Grown filename raw_line linenum segment (c ∷ s) stack h = elim (Bool-cases (is_token c)) [
  | inl e ↦
      let g = token_stack-Grown c segment stack h in
      let next =
        walk-Grown filename raw_line linenum s s (token_stack (c ∷ []) segment stack) g.all_seen in
      rw (e, sym g.height) next
  | inr e ↦
      rw (e, brace_step-other c (length stack) e)
        (walk-Grown filename raw_line linenum segment s stack h)
]

count_parentheses-Grown :
    (line : Text) (stack : List BlockInfo)
    → AllSeen stack
    → Grown (length stack) (count_parentheses line stack)
unfolding count_parentheses
count_parentheses-Grown line [] h = record { all_seen = tt; height = refl }
count_parentheses-Grown line (b ∷ stack) h = record { all_seen = h; height = refl }

set_access_seen :
    (o : Option Found) (b : BlockInfo) → (set_access o b).seen_open_brace ≡ b.seen_open_brace
set_access_seen none b = refl
set_access_seen (some m) b = refl

update_access-Grown :
    (line : Text) (stack : List BlockInfo)
    → AllSeen stack
    → Grown (length stack) (update_access line stack)
unfolding update_access
update_access-Grown line [] h = record { all_seen = tt; height = refl }
update_access-Grown line (b ∷ stack) h = record {
  all_seen = (set_access_seen (match re_access line) b ∙ h.0, h.1);
  height = refl;
}

begin_head-same :
    (line : Text) (stack : List BlockInfo) → AllSeen stack → begin_head line stack ≡ stack
begin_head-same line [] h = refl
begin_head-same line (b ∷ stack) h = simp h.0 refl

take_namespaces-none :
    (fuel linenum : ℕ) (line : Text) (stack : List BlockInfo)
    → match (namespace_head ⨾ namespace_rest) line ≡ none
    → take_namespaces (suc fuel) linenum line stack ≡ some (line, stack)
unfolding take_namespaces
take_namespaces-none fuel linenum line stack e = rw e refl

-- What a line does that declares nothing: the stack of before, with the parentheses counted and the
-- access control noted, goes through the walk over its characters.
plain_line :
    (filename : Text) (clean : CleansedLines) (linenum : ℕ) (s : NestingState)
    → let line = get_or clean.elided linenum [] in
      let before = update_access line (begin_head line (count_parentheses line s.stack)) in
      let walked = walk filename (get_or clean.raw_lines linenum []) linenum line line before in
      NoNewline line
      → directive_of line ≡ no_directive
      → match (namespace_head ⨾ namespace_rest) line ≡ none
      → match re_class line ≡ none
      → update filename clean linenum s ≡ some (record s { stack = walked.0 }, walked.1)
plain_line filename clean linenum s n d ns c =
    let line = get_or clean.elided linenum [] in
    let counted = count_parentheses line s.stack in
    let before = update_access line (begin_head line counted) in
    let same : update_preprocessor line s ≡ s =
      unfold update_preprocessor apply_directive in rw d refl in
    let names : take_namespaces (suc (length line)) linenum line counted ≡ some (line, counted) =
      take_namespaces-none (length line) linenum line counted ns in
    let class : take_class clean linenum line counted ≡ (line, counted) =
      unfold take_class in rw c refl in
    let tokens =
      take_tokens-walk filename (get_or clean.raw_lines linenum []) linenum (suc (length line)) line
        before n (omega arith) in
    unfold update in rw (same, names, class, tokens)

-- On a line that is no directive and declares no namespace and no class, and with no block that waits
-- for its brace, `Update` ends; no block waits for its brace afterwards either, the saved stacks are those of
-- before, and the height of the stack is counted from the braces of the line: one up at each `{`, one
-- down at each `}`, but never below 0.
pub update-height :
    (filename : Text) (clean : CleansedLines) (linenum : ℕ) (s : NestingState)
    → NoNewline (get_or clean.elided linenum [])
    → directive_of (get_or clean.elided linenum []) ≡ no_directive
    → match (namespace_head ⨾ namespace_rest) (get_or clean.elided linenum []) ≡ none
    → match re_class (get_or clean.elided linenum []) ≡ none
    → AllSeen s.stack
    → (s' : NestingState) × (actions : List Action) × (update filename clean linenum s
        ≡ some (s', actions))
      × AllSeen s'.stack
      × (s'.pp_stack ≡ s.pp_stack)
      × (length s'.stack ≡ brace_height (get_or clean.elided linenum []) (length s.stack))
update-height filename clean linenum s n d ns c seen =
    let line = get_or clean.elided linenum [] in
    let raw = get_or clean.raw_lines linenum [] in
    let counted = count_parentheses-Grown line s.stack seen in
    let begun = begin_head-same line (count_parentheses line s.stack) counted.all_seen in
    let noted = update_access-Grown line (count_parentheses line s.stack) counted.all_seen in
    let before = update_access line (count_parentheses line s.stack) in
    let walked = walk-Grown filename raw linenum line line before noted.all_seen in
    let runs = plain_line filename clean linenum s n d ns c in
    (
      record s { stack = (walk filename raw linenum line line before).0 },
      (walk filename raw linenum line line before).1,
      rw begun at runs,
      walked.all_seen,
      refl,
      walked.height ∙ ap (brace_height line) (noted.height ∙ counted.height),
    )
