-- ===== src/Policy/Parser.antt =====
-- backend/internal/policy/parser.go.
pub mod Tokens
pub mod Exprs
pub mod Files
pub mod Grammar
pub mod Reads
pub mod Sound
pub mod FileSound
pub mod Complete
pub mod FileComplete
pub mod Exact
