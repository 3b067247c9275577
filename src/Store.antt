-- ===== src/Store.antt =====
-- Package store: the accounts, the interface that the reconciler talks to, and its laws.
pub mod Types
pub mod Memory
pub mod Postgres
pub mod Laws
