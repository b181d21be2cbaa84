-- ===== src/Store/Roundtrip.antt =====
-- What the serializers of flowers/seams/store.py wrote, read back.
pub mod Effects
pub mod Runs
pub mod Plans
