-- ===== src/Broker.antt =====
-- flowers/broker.py: the one path from the executor to the outside world.
mod Tests
mod BrowserTests
pub mod Spend
pub mod Results
pub mod Backend
pub mod Decision
pub mod Integration
pub mod Browser
pub mod Clicks
pub mod Resume
pub mod Safety
pub mod Forwarded
pub mod Repeat
