-- ===== src/Store.antt =====
-- flowers/seams/store.py: the serializers, and the tables of the store.
mod Tests
pub mod Json
pub mod Effects
pub mod Criteria
pub mod Plans
pub mod Runs
pub mod Roundtrip
pub mod Tables
pub mod RunTable
pub mod EffectLog
pub mod EventLog
pub mod Notes
pub mod Approvals
