-- ===== src/Tests.antt =====
-- Runs of the models on small inputs, which use what the theorems assume.
mod Roads
mod Network
mod Coordinator
mod Agents
mod Rewards
mod Environments
mod Coordination
mod GraphModel
mod Threads
mod Harness
mod Corridor
mod Traffic
mod Curriculum
mod Benchmark
mod Startup
mod Seasons
mod Training
mod Multi
mod Queueing
mod Networks
mod Single
