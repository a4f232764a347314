-- ===== src/Tokens.antt =====
-- scripts/cpplint.py: the checks that look for one kind of token on a line, `CheckCheck`,
-- `CheckAltTokens`, `CheckPosixThreading` and the like.
pub mod Proper
pub mod Macros
pub mod Longest
pub mod Lines
mod Examples
