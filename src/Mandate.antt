-- ===== src/Mandate.antt =====
-- flowers/mandate.py: the authorization scope that an owner approves once.
pub mod Emails
pub mod Scope
pub mod Counts
pub mod Hosts
pub mod Goal
pub mod Grant
pub mod Authority
pub mod Cover
pub mod Admission
pub mod Bounds
mod Tests
mod GrantTests
