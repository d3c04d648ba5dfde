-- ===== src/Rules.antt =====
-- backend/internal/rules: the engine that installs the rule sets, and its nftables backend.
pub mod Nftables
pub mod Iptables
pub mod Sets
pub mod Engine
pub mod Merge
pub mod Templates
pub mod Countries
