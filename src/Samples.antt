-- ===== src/Samples.antt =====
-- Runs on concrete inputs, and each theorem at an input that meets its hypotheses.
mod Lexing
mod Parsing
mod Compiling
mod Ranges
mod Nftables
mod Engine
mod Merging
mod Sessions
mod Schedules
mod Labels
mod Hub
mod Iptables
mod Snippets
mod Autogen
