-- ===== src/Nesting/Preprocessor.antt =====
-- scripts/cpplint.py: `UpdatePreprocessor`.
use dmanix.Base.{true, false, List, [], ◌∷◌, Text, if◌then◌else◌}
use dmanix.Regex.{Regex, group, star, start, boundary}
use dmanix.Regex.Chars.{◌⨾◌, chr, lit, one_of, space}
use dmanix.Regex.Search.{matches}
use dmanix.Nesting.{BlockInfo, PreprocessorInfo, NestingState}

-- ^\s*#\s*(if|ifdef|ifndef)\b
abbrev re_if : Regex
re_if =
    start
    ⨾ star space
    ⨾ chr b'#'
    ⨾ star space
    ⨾ group 1 (one_of "if" ("ifdef" ∷ "ifndef" ∷ []))
    ⨾ boundary

-- ^\s*#\s*(else|elif)\b
abbrev re_else : Regex
re_else =
    start ⨾ star space ⨾ chr b'#' ⨾ star space ⨾ group 1 (one_of "else" ("elif" ∷ [])) ⨾ boundary

-- ^\s*#\s*endif\b
abbrev re_endif : Regex
re_endif = start ⨾ star space ⨾ chr b'#' ⨾ star space ⨾ lit "endif" ⨾ boundary

pub data Directive : Type 0 where
  pp_if pp_else pp_endif no_directive : Directive

-- The three tests, in their order.
unfoldable pub directive_of : Text → Directive
unfolding matches
directive_of line =
    if matches re_if line
    then pp_if
    else if matches re_else line
    then pp_else
    else if matches re_endif line
    then pp_endif
    else no_directive

-- The first #else or #elif remembers the stack up to it.
abbrev pub note_else : List BlockInfo → PreprocessorInfo → PreprocessorInfo
note_else stack p =
    if p.seen_else then p else record p { seen_else = true; stack_before_else = stack }

abbrev else_step : List BlockInfo → List PreprocessorInfo → NestingState
else_step stack [] = record { stack = stack; pp_stack = [] }
else_step stack (p ∷ ps) = record { stack = p.stack_before_if; pp_stack = note_else stack p ∷ ps }

abbrev endif_step : List BlockInfo → List PreprocessorInfo → NestingState
endif_step stack [] = record { stack = stack; pp_stack = [] }
endif_step stack (p ∷ ps) = record {
  stack = if p.seen_else then p.stack_before_else else stack;
  pp_stack = ps;
}

unfoldable pub apply_directive : Directive → NestingState → NestingState
apply_directive pp_if s = record s {
  pp_stack =
      record { stack_before_if = s.stack; stack_before_else = []; seen_else = false } ∷ s.pp_stack;
}
apply_directive pp_else s = else_step s.stack s.pp_stack
apply_directive pp_endif s = endif_step s.stack s.pp_stack
apply_directive no_directive s = s

-- UpdatePreprocessor(line)
unfoldable pub update_preprocessor : Text → NestingState → NestingState
unfolding directive_of apply_directive
update_preprocessor line s = apply_directive (directive_of line) s
