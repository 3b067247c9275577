-- ===== src/Directory.antt =====
-- Package directory: the reconciler. `Types` holds its options and results, `Interface` what it
-- needs of the SCIM client, `Apply`, `Walk` and `Cycle` its methods.
pub mod Types
pub mod Interface
pub mod Run
pub mod Apply
pub mod Spec
pub mod Walk
pub mod Cycle
pub mod Alerts
