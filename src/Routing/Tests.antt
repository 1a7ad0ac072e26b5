-- ===== src/Routing/Tests.antt =====
-- Runs of the routing modules, and their theorems at concrete inputs.
use marga.Prelude.{
  ◌⊎◌, true, false, ℕ, ◌+◌, ◌<◌, ◌≡◌, ◌≢◌, refl, String, false, some, none, List, [], ◌∷◌, arith,
  string_eq,
}
use marga.Prelude.Dict
use marga.Prelude.Dict.{Dict}
use marga.Routing.Graph.{
  Node, EdgeMetrics, Edge, MobilityGraph, empty, adjacent, add_node, add_edge, ingest_metrics, node,
  edge, present, edges_from,
}
use marga.Routing.Graph.Ownership.{IsGraph, empty-IsGraph, add_node-IsGraph, add_edge-IsGraph}
use marga.Routing.Pathfinder.{
  PathStep, is_in, load_of, improves, found, out_of_fuel, no_route, relax_edge, relax, search,
  find_path, path_cost,
}
use marga.Routing.Pathfinder.Heap.{insert, ordered, ordered-IsHeap}
use marga.Routing.Pathfinder.Walks.{IsRoute, find_path-IsRoute}
use marga.Routing.Pathfinder.Fuel.{work, sources, find_path-returns}
use marga.Routing.Pathfinder.Reach.{Reachable, here, along}
use marga.Routing.Pathfinder.Complete.{find_path-found}
use marga.Routing.Distributor.{
  is_material, should_reroute, check_trigger, max_hazard, is_over, fits_capacity, same_path,
  is_listed, is_cheaper, add_load, choose, route, saturate, diversify, alternatives, plan_vehicle,
}
use marga.Routing.Distributor.Assignment.{Moves, plan_vehicle-Decides}

program : Unit {0}
unfolding Dict.get Dict.put adjacent add_node add_edge ingest_metrics node edge present edges_from
    is_in load_of improves relax_edge relax search find_path path_cost insert work is_material
    should_reroute check_trigger max_hazard is_over fits_capacity same_path is_listed is_cheaper
    add_load choose route saturate diversify alternatives plan_vehicle
program = tt

abbrev place : String → Node
place n = record { node_id = n; lat = 0; lon = 0 }

abbrev metrics : EdgeMetrics
metrics = record {
  avg_speed_mps = 8_000;
  vehicle_count = 0;
  capacity_ratio = 0;
  hazard_penalty = 0;
  gps_confidence = 1_000;
  downstream_congestion = 0;
  closure = false;
}

abbrev road : String → String → String → ℕ → Edge
road i a b length = record {
  edge_id = i;
  src = a;
  dst = b;
  length_m = length;
  capacity_vehicles = 40;
  metrics = metrics;
}

abbrev places : MobilityGraph
places = add_node (place "c") (add_node (place "b") (add_node (place "a") empty))

-- A direct road that is longer than the way over `b`.
abbrev roads : MobilityGraph
roads =
    add_edge (road "ac" "a" "c" 9)
      (add_edge (road "bc" "b" "c" 4) (add_edge (road "ab" "a" "b" 3) places))

places-IsGraph : IsGraph places
places-IsGraph =
    add_node-IsGraph (place "c")
      (add_node-IsGraph (place "b") (add_node-IsGraph (place "a") empty-IsGraph))

two-IsGraph : IsGraph (add_edge (road "bc" "b" "c" 4) (add_edge (road "ab" "a" "b" 3) places))
unfolding program
two-IsGraph =
    add_edge-IsGraph (road "bc" "b" "c" 4) refl
      (add_edge-IsGraph (road "ab" "a" "b" 3) refl places-IsGraph)

roads-IsGraph : IsGraph roads
unfolding program
roads-IsGraph = add_edge-IsGraph (road "ac" "a" "c" 9) refl two-IsGraph

abbrev cost : Edge → ℕ → ℕ
cost e load = e.length_m + load

abbrev flat : String → ℕ
flat n = 0

abbrev over_b : List PathStep
over_b = ("a", none) ∷ ("b", some "ab") ∷ ("c", some "bc") ∷ []

finds : find_path ordered cost flat [] 9 roads "a" "c" ≡ found over_b 7
unfolding program
finds = refl

costs : path_cost cost roads [] over_b ≡ some 7
unfolding program
costs = refl

no_way : find_path ordered cost flat [] 9 roads "c" "a" ≡ no_route
unfolding program
no_way = refl

find_path-IsRoute_example :
    IsRoute ordered ordered-IsHeap cost flat [] roads roads-IsGraph "a" "c" over_b 7
find_path-IsRoute_example =
    find_path-IsRoute ordered ordered-IsHeap cost flat [] roads roads-IsGraph "a" 9 "c" over_b 7
      finds

few : work roads (sources roads) [] + 1 < 9
unfolding program
few = omega arith

find_path-returns_example : find_path ordered cost flat [] 9 roads "a" "c" ≢ out_of_fuel
find_path-returns_example =
    find_path-returns ordered ordered-IsHeap cost flat [] roads 9 "a" "c" few

c-Reachable : Reachable roads "a" "c"
unfolding program
c-Reachable = along (road "ab" "a" "b" 3 ∷ []) (road "ac" "a" "c" 9) [] refl here

find_path-found_example :
    (path : List PathStep) × (total : ℕ) × (find_path ordered cost flat [] 9 roads "a" "c"
      ≡ found path total)
unfolding program
find_path-found_example =
    find_path-found ordered ordered-IsHeap cost flat [] roads "a" "c" 9 {a = place "a"}
      {b = place "c"} few refl refl c-Reachable

abbrev direct : List PathStep
direct = ("a", none) ∷ ("c", some "ac") ∷ []

moves : (plan_vehicle ordered cost flat 9 roads "v" "a" "c" direct []).0.new_path ≡ over_b
unfolding program
moves = refl

plan_vehicle-Decides_example :
    let planned = plan_vehicle ordered cost flat 9 roads "v" "a" "c" direct [] in
    ((planned.0.triggered ≡ true) × Moves ordered cost flat 9 roads [] "a" "c" direct planned)
    ⊎ ((planned.0.triggered ≡ false) × (planned.0.new_path ≡ direct) × (planned.1 ≡ []))
plan_vehicle-Decides_example = plan_vehicle-Decides ordered cost flat 9 roads "v" "a" "c" direct []
