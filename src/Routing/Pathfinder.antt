-- ===== src/Routing/Pathfinder.antt =====
-- services/routing/marga_routing/pathfinder.py, `find_path`. Costs are whole numbers of a small unit.
-- The cost of an edge under a load, and the heuristic of a node, are arguments. The chain of the
-- parents of an item is the list of its steps, latest first.
pub mod Heap
pub mod Step
pub mod Walks
pub mod Fuel
pub mod Reach
pub mod Complete
use marga.Prelude.{
  ℕ, zero, suc, ◌+◌, String, Bool, true, false, ◌||◌, Option, none, some, List, [], ◌∷◌, ◌++◌,
  if◌then◌else◌, ltb, ◌==◌, string_eq,
}
use marga.Prelude.Dict
use marga.Prelude.Dict.{Dict}
use marga.Routing.Graph.{MobilityGraph, Edge, node, edge, edges_from}

abbrev pub PathStep : Type 0
PathStep = String × Option String

-- `_HeapItem`
pub record HeapItem : Type 0 where
  pub f : ℕ
  pub g : ℕ
  pub node_id : String
  pub edge_id : Option String
  pub parents : List PathStep

-- What the code uses of `heapq`: it compares items by `f` alone, and leaves open which of several
-- least items comes first.
pub record HeapOps : Type 0 where
  pub push : HeapItem → List HeapItem → List HeapItem
  pub pop : List HeapItem → Option (HeapItem × List HeapItem)

-- `node_id in closed`
unfoldable pub is_in : String → List String → Bool
is_in n [] = false
is_in n (x ∷ xs) = x == n || is_in n xs

-- The three collections of the search.
pub record Search : Type 0 where
  pub open_heap : List HeapItem
  pub best_g : Dict String ℕ
  pub closed : List String

abbrev pub reverse {ℓ} : {A : Type ℓ} → List A → List A
reverse [] = []
reverse (x ∷ xs) = reverse xs ++ x ∷ []

-- The steps of an item, latest first.
abbrev pub steps : HeapItem → List PathStep
steps i = (i.node_id, i.edge_id) ∷ i.parents

-- `load_offsets.get(edge_id, 0)`
unfoldable pub load_of : Dict String ℕ → String → ℕ
load_of loads edge_id = elim (Dict.get edge_id loads) [ none ↦ 0 | some n ↦ n ]

-- `new_g < best_g.get(node_id, inf)`
unfoldable pub improves : ℕ → Option ℕ → Bool
improves new_g none = true
improves new_g (some old) = ltb new_g old

pub data Result : Type 0 where
  found : List PathStep → ℕ → Result
  no_route : Result
  out_of_fuel : Result

-- The item of the origin.
abbrev pub start : (String → ℕ) → String → HeapItem
start h origin = record { f = h origin; g = 0; node_id = origin; edge_id = none; parents = [] }

module _ (cost : Edge → ℕ → ℕ) (h : String → ℕ) (loads : Dict String ℕ) where
  -- The item for a neighbour.
  abbrev pub neighbour : HeapItem → Edge → HeapItem
  neighbour current e =
      let new_g = current.g + cost e (load_of loads e.edge_id) in
      record {
        f = new_g + h e.dst;
        g = new_g;
        node_id = e.dst;
        edge_id = some e.edge_id;
        parents = steps current;
      }

module _ (ops : HeapOps) (cost : Edge → ℕ → ℕ) (h : String → ℕ) (loads : Dict String ℕ) where
  -- The body of the loop over the edges of a node.
  unfoldable pub relax_edge : HeapItem → Edge → Search → Search
  relax_edge current e s =
      let i = neighbour cost h loads current e in
      if is_in e.dst s.closed
      then s
      else if improves i.g (Dict.get e.dst s.best_g)
      then record s { best_g = Dict.put e.dst i.g s.best_g; open_heap = ops.push i s.open_heap }
      else s

  unfoldable pub relax : HeapItem → List Edge → Search → Search
  relax current [] s = s
  relax current (e ∷ es) s = relax current es (relax_edge current e s)

  -- `while open_heap`
  unfoldable pub search : ℕ → MobilityGraph → String → Search → Result
  search zero graph destination s = out_of_fuel
  search (suc fuel) graph destination s = elim (ops.pop s.open_heap) [
    | none ↦ no_route
    | some (current, rest) ↦
        let s' : Search = record s { open_heap = rest } in
        let s'' : Search = record s' { closed = current.node_id ∷ s.closed } in
        let again = search fuel graph destination s' in
        let on =
          search fuel graph destination (relax current (edges_from current.node_id graph) s'') in
        if is_in current.node_id s.closed
        then again
        else if current.node_id == destination
        then found (reverse (steps current)) current.g
        else on
  ]

  -- The search as it starts.
  abbrev pub initial : String → Search
  initial origin = record {
    open_heap = ops.push (start h origin) [];
    best_g = (origin, 0) ∷ [];
    closed = [];
  }

  unfoldable pub find_path : ℕ → MobilityGraph → String → String → Result
  find_path fuel graph origin destination =
      let result = search fuel graph destination (initial origin) in
      if origin == destination then found ((origin, none) ∷ []) 0 else elim (node origin graph) [
        | none ↦ no_route
        | some _ ↦ elim (node destination graph) [ none ↦ no_route | some _ ↦ result ]
      ]

-- `path_cost`; nothing where an edge of the path is gone.
unfoldable pub path_cost : (Edge → ℕ → ℕ) → MobilityGraph → Dict String ℕ → List PathStep → Option ℕ
path_cost cost graph loads [] = some 0
path_cost cost graph loads ((_, none) ∷ path) = path_cost cost graph loads path
path_cost cost graph loads ((_, some i) ∷ path) =
    let rest = path_cost cost graph loads path in
    elim (edge i graph) [
      | none ↦ none
      | some e ↦ elim rest [ none ↦ none | some c ↦ some (cost e (load_of loads i) + c) ]
    ]
