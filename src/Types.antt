-- ===== src/Types.antt =====
-- flowers/types.py: the data that the parts of the program share.
pub mod Effect
pub mod Plan
pub mod Run
mod Tests
