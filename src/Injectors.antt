-- ===== src/Injectors.antt =====
-- mininet/fault_injectors.py: the injectors, and the shell commands that they build.
pub mod Script
pub mod Traces
pub mod Logged
pub mod Args
pub mod Tc
pub mod Filtered
pub mod Link
pub mod Nodes
pub mod Returned
pub mod Node
pub mod Multi
