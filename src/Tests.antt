-- ===== src/Tests.antt =====
-- Concrete inputs, runs of the definitions on them, and the theorems applied to them.
pub mod Samples
pub mod Faults
pub mod Runs
pub mod Topologies
pub mod Nodes
pub mod Links
pub mod Configs
pub mod Addresses
pub mod Shells
pub mod Emulations
pub mod Listings
pub mod Clusters
pub mod Lives
pub mod Gatherings
