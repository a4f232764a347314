-- ===== src/Nesting/Conditional.antt =====
-- What the nesting stack is after nested #if groups: only the first branch of each group counts.
use dmanix.Base.{◌≡◌, refl, ap, ◌∙◌, false, List, [], ◌∷◌, Bool-cases, inl, inr, if◌then◌else◌}
use dmanix.Nesting.{BlockInfo, PreprocessorInfo, NestingState}
use dmanix.Nesting.Preprocessor.{Directive, pp_if, pp_else, pp_endif, note_else, apply_directive}

-- The lines of a file, as the nesting stack sees them: a directive, or a line that changes the stack.
pub data Event : Type 0 where
  directive : Directive → Event
  other : (List BlockInfo → List BlockInfo) → Event

pub handle : Event → NestingState → NestingState
handle (directive d) s = apply_directive d s
handle (other f) s = record s { stack = f s.stack }

pub handle_all : List Event → NestingState → NestingState
handle_all [] s = s
handle_all (e ∷ es) s = handle_all es (handle e s)

-- A text with its groups: `conditional body branches` is `#if body (#else branch)… #endif`.
mutual
  pub data Items : Type 0 where
    nil : Items
    line : (List BlockInfo → List BlockInfo) → Items → Items
    conditional : Items → Branches → Items → Items

  pub data Branches : Type 0 where
    no_more : Branches
    branch : Items → Branches → Branches

mutual
  -- The events of the lines, in front of those that follow.
  pub events : Items → List Event → List Event
  events nil rest = rest
  events (line f items) rest = other f ∷ events items rest
  events (conditional body branches items) rest =
      directive pp_if
      ∷ events body (branch_events branches (directive pp_endif ∷ events items rest))

  pub branch_events : Branches → List Event → List Event
  branch_events no_more rest = rest
  branch_events (branch body branches) rest =
      directive pp_else ∷ events body (branch_events branches rest)

-- The meaning: a group is its first branch.
pub meaning : Items → List BlockInfo → List BlockInfo
meaning nil s = s
meaning (line f items) s = meaning items (f s)
meaning (conditional body branches items) s = meaning items (meaning body s)

-- The stack that the #endif of the group leaves.
abbrev after_group : List BlockInfo → PreprocessorInfo → List BlockInfo
after_group stack p = if p.seen_else then p.stack_before_else else stack

-- A second #else does not change what the group will leave.
after_note :
    (body_stack stack : List BlockInfo) (p : PreprocessorInfo)
    → after_group body_stack (note_else stack p) ≡ after_group stack p
after_note body_stack stack p = elim (Bool-cases p.seen_else) [ inl e ↦ simp e | inr e ↦ simp e ]

mutual
  unfolding events branch_events meaning handle_all handle apply_directive

  handle-events :
      (items : Items) (rest : List Event) (stack : List BlockInfo) (pp : List PreprocessorInfo)
      → handle_all (events items rest) (record { stack = stack; pp_stack = pp })
        ≡ handle_all rest (record { stack = meaning items stack; pp_stack = pp })
  handle-events nil rest stack pp = refl
  handle-events (line f items) rest stack pp = handle-events items rest (f stack) pp
  handle-events (conditional body branches items) rest stack pp =
      handle-events body (branch_events branches (directive pp_endif ∷ events items rest)) stack
        (record { stack_before_if = stack; stack_before_else = []; seen_else = false } ∷ pp)
      ∙ handle-branches branches (events items rest) (meaning body stack)
          (record { stack_before_if = stack; stack_before_else = []; seen_else = false }) pp
      ∙ handle-events items rest (meaning body stack) pp

  handle-branches :
      (branches : Branches) (rest : List Event) (stack : List BlockInfo) (p : PreprocessorInfo)
      (pp : List PreprocessorInfo)
      → handle_all
          (branch_events branches (directive pp_endif ∷ rest))
          (record { stack = stack; pp_stack = p ∷ pp })
        ≡ handle_all rest (record { stack = after_group stack p; pp_stack = pp })
  handle-branches no_more rest stack p pp = refl
  handle-branches (branch body branches) rest stack p pp =
      handle-events body (branch_events branches (directive pp_endif ∷ rest)) p.stack_before_if
        (note_else stack p ∷ pp)
      ∙ handle-branches branches rest (meaning body p.stack_before_if) (note_else stack p) pp
      ∙ ap (λ (st : List BlockInfo). handle_all rest (record { stack = st; pp_stack = pp }))
          (after_note (meaning body p.stack_before_if) stack p)

-- From any state, the lines of a text whose #if groups are closed leave the stack that the text means,
-- where each group counts as its first branch alone, and leave the saved stacks as they were.
pub handle_all-meaning :
    (items : Items) (s : NestingState)
    → handle_all (events items []) s
      ≡ record { stack = meaning items s.stack; pp_stack = s.pp_stack }
handle_all-meaning items s = handle-events items [] s.stack s.pp_stack ∙ unfold handle_all in refl
