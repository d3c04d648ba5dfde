-- ===== src/Docker.antt =====
-- backend/internal/docker: the rule sets that container labels, files, templates and policies give,
-- and the address ranges that they name.
pub mod RuleSet
pub mod Range
pub mod RangeV6
pub mod Numbers
pub mod Entries
pub mod Labels
