-- ===== src/Tests.antt =====
-- Runs of the definitions, and the theorems at concrete inputs.
pub mod Model
pub mod Texts
pub mod Storage
pub mod Nodes
pub mod Rounds
pub mod Takeovers
pub mod Clusters
pub mod Sources
pub mod Replies
pub mod Probes
pub mod Sessions
