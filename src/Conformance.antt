-- ===== src/Conformance.antt =====
pub mod Report
pub mod Criteria
pub mod Runner
pub mod Adds
pub mod Suite
pub mod PhaseOne
pub mod Capabilities
pub mod PhaseTwo
pub mod Command
