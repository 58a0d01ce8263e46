-- ===== src/Coordination.antt =====
-- brain/src/coordination: coordination of the signals along a corridor.
pub mod GreenWave
pub mod GraphModel
