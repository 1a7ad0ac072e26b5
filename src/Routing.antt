-- ===== src/Routing.antt =====
-- services/routing/marga_routing: routes over the live graph of the roads.
pub mod Graph
pub mod Pathfinder
pub mod Distributor
mod Tests
