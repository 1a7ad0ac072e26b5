-- ===== src/Routing/Graph.antt =====
-- services/routing/marga_routing/graph.py. Identifiers are texts; speeds are millimetres a second,
-- lengths millimetres, ratios and penalties thousandths, and coordinates whole numbers of a small
-- unit from -180 degrees. The metrics that no modelled code reads are left out.
pub mod Ownership
use marga.Prelude.{
  ℕ, String, Bool, Option, none, some, List, [], ◌∷◌, ◌++◌, map, if◌then◌else◌, length, string_eq,
}
use marga.Prelude.Dict
use marga.Prelude.Dict.{Dict}

pub record Node : Type 0 where
  pub node_id : String
  pub lat : ℕ
  pub lon : ℕ

pub record EdgeMetrics : Type 0 where
  pub avg_speed_mps : ℕ
  pub vehicle_count : ℕ
  pub capacity_ratio : ℕ
  pub hazard_penalty : ℕ
  pub gps_confidence : ℕ
  pub downstream_congestion : ℕ
  pub closure : Bool

pub record Edge : Type 0 where
  pub edge_id : String
  pub src : String
  pub dst : String
  pub length_m : ℕ
  pub capacity_vehicles : ℕ
  pub metrics : EdgeMetrics

pub record MobilityGraph : Type 0 where
  pub nodes : Dict String Node
  pub edges : Dict String Edge
  pub adjacency : Dict String (List String)

abbrev pub empty : MobilityGraph
empty = record { nodes = []; edges = []; adjacency = [] }

-- `self._adjacency.get(node_id, [])`
unfoldable pub adjacent : String → MobilityGraph → List String
adjacent node_id g = elim (Dict.get node_id g.adjacency) [ none ↦ [] | some es ↦ es ]

unfoldable pub add_node : Node → MobilityGraph → MobilityGraph
unfolding adjacent
add_node n g = record g {
  nodes = Dict.put n.node_id n g.nodes;
  adjacency = Dict.put n.node_id (adjacent n.node_id g) g.adjacency;
}

unfoldable pub add_edge : Edge → MobilityGraph → MobilityGraph
unfolding adjacent
add_edge e g = record g {
  edges = Dict.put e.edge_id e g.edges;
  adjacency = Dict.put e.src (adjacent e.src g ++ e.edge_id ∷ []) g.adjacency;
}

unfoldable pub ingest_metrics : String → EdgeMetrics → MobilityGraph → MobilityGraph
ingest_metrics edge_id m g = elim (Dict.get edge_id g.edges) [
  | none ↦ g
  | some e ↦ record g { edges = Dict.put edge_id (record e { metrics = m }) g.edges }
]

unfoldable pub node : String → MobilityGraph → Option Node
node node_id g = Dict.get node_id g.nodes

unfoldable pub edge : String → MobilityGraph → Option Edge
edge edge_id g = Dict.get edge_id g.edges

-- `[self._edges[eid] for eid in eids if eid in self._edges]`
unfoldable pub present : List String → MobilityGraph → List Edge
present [] g = []
present (i ∷ is) g = elim (Dict.get i g.edges) [ none ↦ present is g | some e ↦ e ∷ present is g ]

unfoldable pub edges_from : String → MobilityGraph → List Edge
unfolding present adjacent
edges_from node_id g = present (adjacent node_id g) g

unfoldable pub node_count : MobilityGraph → ℕ
node_count g = length g.nodes

unfoldable pub edge_count : MobilityGraph → ℕ
edge_count g = length g.edges
