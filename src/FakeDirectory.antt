-- ===== src/FakeDirectory.antt =====
-- The fake directory that tests run against (scimtest/scimtest.go).
pub mod State
pub mod Answers
pub mod Writes
pub mod Handler
pub mod Bindings
pub mod Unshared
pub mod RoundTrip
pub mod Listing
