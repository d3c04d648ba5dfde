-- ===== src/Policy.antt =====
-- The policy language of backend/internal/policy: tokens, parser and compiler to rule sets.
pub mod Ast
pub mod Unicode
pub mod Error
pub mod Lexer
pub mod Parser
pub mod Compile
