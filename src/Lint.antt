-- ===== src/Lint.antt =====
-- scripts/cpplint.py: the module-wide state (`_CppLintState`), the error handler `Error` and the
-- suppressions by NOLINT comments. A check returns the calls that it makes, in their order, and
-- `perform` makes them on the state.
pub mod Report
pub mod Proper
pub mod Categories
pub mod Filters
pub mod Suppress
pub mod Counts
pub mod Emit
pub mod Accounting
pub mod Unclosed
pub mod Silence
mod Examples
use dmanix.Base.{ℕ, Option, List, Text}
use dmanix.Base.Int.{ℤ}

-- self.counting and self.output_format: the texts that `ParseArguments` lets through
pub data Counting : Type 0 where
  total toplevel detailed : Counting

pub data OutputFormat : Type 0 where
  emacs vs7 : OutputFormat

pub record CppLintState : Type 0 where
  pub verbose_level : ℤ
  pub error_count : ℕ
  pub filters : List Text
  pub counting : Counting
  pub errors_by_category : List (Text × ℕ)
  pub output_format : OutputFormat

-- The globals: `_cpplint_state`, `_error_suppressions` as the pairs (category, line) that it holds
-- (`none` is the key None), and what has been written to stderr, a text for each write.
pub record Globals : Type 0 where
  pub state : CppLintState
  pub suppressions : List (Option Text × ℕ)
  pub written : List Text

-- A call that a check makes: of its `error` argument, with file name, line, category, confidence and
-- message, or of `_error_suppressions.setdefault(category, set()).add(linenum)`.
pub data Action : Type 0 where
  report : Text → ℕ → Text → ℕ → Text → Action
  suppress : Option Text → ℕ → Action
