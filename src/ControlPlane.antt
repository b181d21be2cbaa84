-- ===== src/ControlPlane.antt =====
-- flowers/controlplane.py: where an owner's message goes, and what the timers that are due do.
pub mod Route
pub mod Tick
pub mod Chosen
pub mod Once
mod Tests
