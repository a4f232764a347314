-- ===== src/Nesting.antt =====
-- scripts/cpplint.py: `_BlockInfo`, `_ClassInfo`, `_NamespaceInfo`, `_PreprocessorInfo` and
-- `_NestingState`. A stack is a list with its top in front; a saved stack is a copy, as `deepcopy` makes it.
pub mod Proper
pub mod Preprocessor
pub mod Conditional
pub mod Blocks
pub mod Declarations
pub mod Update
pub mod Terminates
pub mod Braces
pub mod Height
mod Examples
use dmanix.Base.{ℕ, Bool, true, false, Option, none, some, List, [], ◌∷◌, Text}
use dmanix.Base.Int.{ℤ}

-- _NO_ASM to _BLOCK_ASM
pub data InlineAsm : Type 0 where
  no_asm inside_asm end_asm block_asm : InlineAsm

pub record ClassInfo : Type 0 where
  pub name : Text
  pub starting_linenum : ℕ
  pub is_derived : Bool
  pub access : Text
  pub last_line : ℕ

pub record NamespaceInfo : Type 0 where
  pub name : Text
  pub starting_linenum : ℕ

-- The class of the object, with the fields that it adds to `_BlockInfo`.
pub data Kind : Type 0 where
  plain : Kind
  class_kind : ClassInfo → Kind
  namespace_kind : NamespaceInfo → Kind

pub record BlockInfo : Type 0 where
  pub seen_open_brace : Bool
  pub open_parentheses : ℤ
  pub inline_asm : InlineAsm
  pub kind : Kind

abbrev pub new_block : Bool → Kind → BlockInfo
new_block seen_open_brace kind = record {
  seen_open_brace = seen_open_brace;
  open_parentheses = ℤ.pos 0;
  inline_asm = no_asm;
  kind = kind;
}

pub record PreprocessorInfo : Type 0 where
  pub stack_before_if : List BlockInfo
  pub stack_before_else : List BlockInfo
  pub seen_else : Bool

pub record NestingState : Type 0 where
  pub stack : List BlockInfo
  pub pp_stack : List PreprocessorInfo

abbrev pub new_nesting_state : NestingState
new_nesting_state = record { stack = []; pp_stack = [] }

abbrev top_seen_open_brace : List BlockInfo → Bool
top_seen_open_brace [] = true
top_seen_open_brace (b ∷ _) = b.seen_open_brace

-- SeenOpenBrace()
unfoldable pub seen_open_brace : List BlockInfo → Bool
seen_open_brace stack = top_seen_open_brace stack

abbrev is_namespace : Kind → Bool
is_namespace (namespace_kind _) = true
is_namespace (class_kind _) = false
is_namespace plain = false

-- InNamespaceBody()
unfoldable pub in_namespace_body : List BlockInfo → Bool
in_namespace_body [] = false
in_namespace_body (b ∷ _) = is_namespace b.kind

abbrev class_or : Kind → Option ClassInfo → Option ClassInfo
class_or (class_kind c) o = some c
class_or (namespace_kind _) o = o
class_or plain o = o

-- InnermostClass()
unfoldable pub innermost_class : List BlockInfo → Option ClassInfo
innermost_class [] = none
innermost_class (b ∷ stack) = class_or b.kind (innermost_class stack)
