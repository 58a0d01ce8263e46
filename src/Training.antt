-- ===== src/Training.antt =====
-- brain/src/training and brain/scripts/train_mappo.py: the demand that the agents are trained on, and
-- how its stages are unlocked.
pub mod Scenarios
pub mod Curriculum
pub mod Benchmark
