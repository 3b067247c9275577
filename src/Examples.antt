-- ===== src/Examples.antt =====
-- Concrete directories and stores, the tests, and the theorems at them.
mod Setup
mod Cycles
mod Recovery
mod Progress
mod Records
mod Stores
mod Listings
mod Requests
mod Service
mod Conformance
mod Fake
mod Worker
mod Contract
mod Database
mod Connection
mod Postgres
