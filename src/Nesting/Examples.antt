-- ===== src/Nesting/Examples.antt =====
-- The theorems on the nesting stack at inputs.
use dmanix.Base.{Text, length, arith, refl, ◌≡◌, some, List, [], ◌∷◌, codes, get_or, true}
use dmanix.Regex.Search.{match}
use dmanix.Lint.{Action}
use dmanix.Lines.{CleansedLines, cleansed_lines}
use dmanix.Nesting.{BlockInfo, new_block, plain, NestingState, new_nesting_state}
use dmanix.Nesting.Preprocessor.{directive_of, update_preprocessor}
use dmanix.Nesting.Conditional.{
  Items, nil, line, conditional, no_more, branch, events, meaning, handle_all, handle_all-meaning,
}
use dmanix.Nesting.Update.{take_tokens, update}
use dmanix.Nesting.Terminates.{update_ends}
use dmanix.Nesting.Braces.{walk, take_tokens-walk}
use dmanix.Nesting.Height.{AllSeen, brace_height, update-height}

abbrev push : List BlockInfo → List BlockInfo
push stack = new_block true plain ∷ stack

-- #if { #else { { #endif
abbrev grouped : Items
grouped = conditional (line push nil) (branch (line push (line push nil)) no_more) nil

handle_all-meaning_example :
    handle_all (events grouped []) new_nesting_state
    ≡ record { stack = meaning grouped []; pp_stack = [] }
handle_all-meaning_example = handle_all-meaning grouped new_nesting_state

abbrev clean : CleansedLines
clean = cleansed_lines (codes "namespace a { class B {" ∷ [])

update_ends_example :
    (s' : NestingState) × (actions : List Action) × (update (codes "a.cc") clean 0 new_nesting_state
      ≡ some (s', actions))
    × (s'.pp_stack ≡ (update_preprocessor (get_or clean.elided 0 []) new_nesting_state).pp_stack)
update_ends_example = update_ends (codes "a.cc") clean 0 new_nesting_state

abbrev braces : Text
braces = codes "} a; {"

take_tokens-walk_example :
    take_tokens 7 (codes "a.cc") braces 0 braces (push [])
    ≡ some (walk (codes "a.cc") braces 0 braces braces (push []))
take_tokens-walk_example =
    take_tokens-walk (codes "a.cc") braces 0 7 braces (push [])
      (refl, (refl, (refl, (refl, (refl, (refl, tt)))))) (omega arith)

abbrev braced_file : CleansedLines
braced_file = record {
  num_lines = 1;
  raw_lines = braces ∷ [];
  lines = braces ∷ [];
  elided = braces ∷ [];
}

abbrev two_blocks : NestingState
two_blocks = record { stack = push (push []); pp_stack = [] }

update-height_example :
    (s' : NestingState) × (actions : List Action) × (update (codes "a.cc") braced_file 0 two_blocks
      ≡ some (s', actions))
    × AllSeen s'.stack
    × (s'.pp_stack ≡ [])
    × (length s'.stack ≡ brace_height braces 2)
update-height_example =
    update-height (codes "a.cc") braced_file 0 two_blocks
      (refl, (refl, (refl, (refl, (refl, (refl, tt)))))) (unfold directive_of in refl)
      (unfold match in refl) (unfold match in refl) (refl, (refl, tt))
