-- ===== src/Environments.antt =====
-- brain/src/environments: the training environments, over SUMO's traffic signals as a parameter.
pub mod Signal
pub mod Actions
pub mod Lanes
pub mod OwnState
pub mod Corridor
pub mod Multi
pub mod Single
