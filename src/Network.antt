-- ===== src/Network.antt =====
-- network/coordinator/src
pub mod Message
pub mod DiGraph
pub mod Graph
pub mod Corridors
pub mod Sync
pub mod Emergency
pub mod Policy
pub mod Auditor
pub mod Plan
pub mod Coordinator
pub mod MainLoop
pub mod Contract
pub mod Threads
pub mod Startup
