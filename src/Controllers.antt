-- ===== src/Controllers.antt =====
-- mininet/fault_controllers: the starters, which read a configuration, and the controllers.
pub mod Patterns
pub mod Identifiers
pub mod Targets
pub mod Traversal
pub mod ConfigFile
pub mod Runs
pub mod Starter
pub mod Logging
pub mod LogOnly
pub mod AgnosticLink
pub mod LinkPairs
pub mod RandomLink
pub mod MostUsedLink
