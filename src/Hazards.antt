-- ===== src/Hazards.antt =====
-- services/hazards/marga_hazards: hazards on the road, from observations of many sources.
pub mod Hazard
pub mod Observed
pub mod Spatial
pub mod Lifecycle
pub mod Fusion
