-- ===== src/Routing/Pathfinder/Step.antt =====
-- One round of the loop of `find_path` in services/routing/marga_routing/pathfinder.py.
use marga.Prelude.{
  ℕ, suc, ◌≡◌, refl, String, true, false, some, none, List, [], ◌∷◌, ◌==◌, string_eq,
}
use marga.Prelude.Dict.{Dict}
use marga.Routing.Graph.{MobilityGraph, Node, Edge, node, edges_from}
use marga.Routing.Pathfinder.{
  HeapItem, HeapOps, is_in, Search, reverse, steps, found, no_route, out_of_fuel, relax, search,
  initial, find_path,
}

module _ (ops : HeapOps) (cost : Edge → ℕ → ℕ) (h : String → ℕ) (loads : Dict String ℕ) where
  -- The search after the node of the item is closed and its edges are relaxed.
  abbrev pub expand : MobilityGraph → HeapItem → List HeapItem → Search → Search
  expand graph current rest s =
      relax ops cost h loads current (edges_from current.node_id graph)
        (record s { open_heap = rest; closed = current.node_id ∷ s.closed })

  pub search-fuel :
      (graph : MobilityGraph) (destination : String) (s : Search)
      → search ops cost h loads 0 graph destination s ≡ out_of_fuel
  unfolding search
  search-fuel graph destination s = refl

  module _ (fuel : ℕ) (graph : MobilityGraph) (destination : String) (s : Search) where
    pub search-empty :
        ops.pop s.open_heap ≡ none
        → search ops cost h loads (suc fuel) graph destination s ≡ no_route
    unfolding search
    search-empty e = rw (e, search) refl

    module _ (current : HeapItem) (rest : List HeapItem)
        (popped : ops.pop s.open_heap ≡ some (current, rest)) where
      pub search-again :
          is_in current.node_id s.closed ≡ true
          → search ops cost h loads (suc fuel) graph destination s
            ≡ search ops cost h loads fuel graph destination (record s { open_heap = rest })
      unfolding search
      search-again shut = rw (popped, shut, search) refl

      pub search-found :
          is_in current.node_id s.closed ≡ false
          → (current.node_id == destination) ≡ true
          → search ops cost h loads (suc fuel) graph destination s
            ≡ found (reverse (steps current)) current.g
      unfolding search
      search-found free there = rw (popped, free, there, search) refl

      pub search-on :
          is_in current.node_id s.closed ≡ false
          → (current.node_id == destination) ≡ false
          → search ops cost h loads (suc fuel) graph destination s
            ≡ search ops cost h loads fuel graph destination (expand graph current rest s)
      unfolding search
      search-on free there = rw (popped, free, there, search) refl

  module _ (fuel : ℕ) (graph : MobilityGraph) (origin destination : String) where
    pub find_path-same :
        (origin == destination) ≡ true
        → find_path ops cost h loads fuel graph origin destination ≡ found ((origin, none) ∷ []) 0
    unfolding find_path
    find_path-same same = rw (same, find_path) refl

    pub find_path-search :
        {a b : Node}
        → (origin == destination) ≡ false
        → node origin graph ≡ some a
        → node destination graph ≡ some b
        → find_path ops cost h loads fuel graph origin destination
          ≡ search ops cost h loads fuel graph destination (initial ops cost h loads origin)
    unfolding find_path
    find_path-search other na nb = rw (other, na, nb, find_path) refl
