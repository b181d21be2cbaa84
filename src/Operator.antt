-- ===== src/Operator.antt =====
-- flowers/engine/operator.py: the gate on a step, the retries, and the ends and restarts of a run.
pub mod Gate
pub mod Intents
pub mod Corrections
pub mod Ladder
pub mod Lifecycle
pub mod Recovery
pub mod Deliverable
mod Tests
mod EscalationTests
mod LifecycleTests
mod RecoveryTests
