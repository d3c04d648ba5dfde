-- ===== src/Lib.antt =====
-- A model of Firefik, a firewall for Docker containers, and of its policy language.
--
-- A policy is text. The parser (backend/internal/policy) turns it into rules, and the compiler of the
-- same package turns each rule into firewall rule sets, the type of backend/internal/docker that
-- container labels, templates and the rules file give too. The engine (backend/internal/rules) hands the
-- rule sets of a container to a backend, which installs chains and rules in the kernel.
--
-- Policy/Ast, Lexer, Parser and Compile are ast.go, lexer.go, parser.go and compile.go of
-- backend/internal/policy, with a definition for each function, in the source's words (`lexString` is
-- `lex_string`, `parseExprOr` is `parse_or`), and helpers for their loops. Policy/Parser/Grammar is the
-- grammar, written apart from the parser. Docker/RuleSet has the types of backend/internal/docker/labels.go,
-- Docker/Range and Docker/RangeV6 its `rangeToCIDRs` and `rangeToCIDRsV6`, Docker/Entries its parsers of
-- values, and Docker/Labels its `ParseLabels`. Schedule/Window and Schedule/Parse are
-- backend/internal/schedule/window.go.
-- Rules/Nftables is what backend/internal/rules/nftables.go queues for a container, Nftables/Semantics what
-- the kernel makes of it, after its manual, and Nftables/Verdicts the description of a rule set's verdict.
-- Rules/Iptables is what `fillRuleSetChain` of backend/internal/rules/iptables.go appends to the chain of a rule
-- set, with a semantics and a description of its own.
-- Rules/Sets is profiles.go, geoip_rules.go and the network functions of engine.go in backend/internal/rules,
-- and Rules/Engine the rest of engine.go: the state is a record, the kernel behind the backends is a
-- parameter, and each operation returns the new state and Go's error. Rules/Engine/Drift has its rehydration
-- and drift. Rules/Countries follows the countries of a policy from the compiler to the chains. Rules/Merge and Rules/Templates are what a container's configuration grows by:
-- `MergeFileRules` of engine.go, templates.go of the same package, and rules.go and templates.go of
-- backend/internal/config. ControlPlane/Session is session.go of backend/internal/controlplane, with the time of
-- each call as an argument. LogStream/Hub is the hub of backend/internal/logstream/hub.go: each step of its
-- loop and of its callers is an action on one state, and a run takes actions in any order. The range over
-- the map of clients, whose order Go leaves open, goes from the newest client to the oldest.
-- AgentDispatch/Snippets has the labels and the policy that backend/internal/agentdispatch/dispatcher.go writes
-- for a proposal, which are read by Docker/Labels and by Policy/Parser. Autogen is the observer of flows of
-- backend/internal/autogen/observer.go, Autogen/MemStore and Autogen/Sqlite its two stores in store.go of
-- the same package.
--
-- Prelude is shared by all: tests, lists, text, maps, outcomes; Strings is what the program calls of Go's
-- `strings`; Samples has the runs on concrete inputs.
--
-- Numbers are natural numbers, with the wrapping of `uint16` and `uint32` written out; text is a list of
-- runes, and a list of bytes in the names of chains. Errors are values of a data type that keeps what the
-- message prints. Go's tables of letters and digits, its parsing of addresses, the SHA-256 digest and the
-- FNV hash are parameters. An address is the number that its bytes spell.
--
-- The lexer has one round for each rune and one for the end, the parser five calls for each token and
-- eight more, the conversion of a range of either family one round for each address and one more, a
-- range of weekdays seven. Enough fuel is proved in
-- each case, so that `out_of_fuel` is never returned.
--
-- Not modelled: the reading of files, the chains of a container in iptables, host rules, the rest
-- of the control plane, the dispatcher of commands, the audit log and the reader of the kernel's log; the web interface, SQL but for
-- the table of observed flows, gRPC, certificates, metrics and the
-- command line, which are calls of libraries, input and output; generated code.
pub mod Prelude
pub mod Policy
pub mod Strings
pub mod Schedule
pub mod Docker
pub mod Rules
pub mod Autogen
pub mod AgentDispatch
pub mod LogStream
pub mod ControlPlane
mod Samples
