-- ===== src/TrustGate.antt =====
-- flowers/trustgate.py: the decision core that refuses an unsupported "done".
pub mod Record
pub mod Effects
pub mod Verdict
pub mod Settled
pub mod Labels
pub mod Events
mod Tests
