-- ===== src/Edge.antt =====
-- services/edge_v2x: the units in the vehicles, which judge their own risks.
pub mod Prioritizer
pub mod Node
mod Tests
