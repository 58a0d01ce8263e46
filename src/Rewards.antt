-- ===== src/Rewards.antt =====
-- brain/src/rewards
pub mod Base
pub mod Queues
pub mod Spillback
pub mod NightMode
pub mod SmartDelay
pub mod Composite
