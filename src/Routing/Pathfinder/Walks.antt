-- ===== src/Routing/Pathfinder/Walks.antt =====
-- The routes that services/routing/marga_routing/pathfinder.py returns.
use mathlib.Core.Path.{subst}
use marga.Prelude.{
  ℕ, zero, suc, ◌+◌, ◌≡◌, ◌≢◌, refl, sym, ◌∙◌, inl, inr, String, Option, none, some, List, [], ◌∷◌,
  arith, All, ◌==◌, string_eq, Bool-cases, Option-cases,
}
use text.Mathlib.TextEquality.{eq_iff}
use marga.Prelude.Dict
use marga.Prelude.Dict.{Dict}
use marga.Routing.Graph.{MobilityGraph, Edge, node, edge, edges_from}
use marga.Routing.Graph.Ownership.{IsGraph, edges_from-All}
use marga.Routing.Pathfinder.{
  PathStep, HeapItem, HeapOps, is_in, Search, reverse, steps, load_of, improves, found, no_route,
  neighbour, relax_edge, relax, initial, search, start, find_path,
}
use marga.Routing.Pathfinder.Heap.{IsHeap}
use marga.Routing.Pathfinder.Step.{
  expand, search-empty, search-again, search-found, search-on, find_path-same, find_path-search,
}

-- Steps from the origin, latest first, along edges of the graph, and what they cost in all.
pub data Trail (cost : Edge → ℕ → ℕ) (loads : Dict String ℕ) (graph : MobilityGraph)
    (origin : String) : List PathStep → ℕ → Type 0 where
  begin : Trail cost loads graph origin ((origin, none) ∷ []) 0
  go :
      {x : Option String} {path : List PathStep} {total : ℕ} (e : Edge)
      → edge e.edge_id graph ≡ some e
      → Trail cost loads graph origin ((e.src, x) ∷ path) total
      → Trail cost loads graph origin
          ((e.dst, some e.edge_id) ∷ (e.src, x) ∷ path)
          (total + cost e (load_of loads e.edge_id))

none_found : {p : List PathStep} {n : ℕ} → no_route ≢ found p n
none_found e = ground (arith, e)

found_injective : {p q : List PathStep} {m n : ℕ} → found p m ≡ found q n → (p ≡ q) × (m ≡ n)
found_injective e = (ground (arith, e), ground (arith, e))

module _ (ops : HeapOps) (laws : IsHeap ops) (cost : Edge → ℕ → ℕ) (h : String → ℕ)
    (loads : Dict String ℕ) (graph : MobilityGraph) (ordered_graph : IsGraph graph)
    (origin : String) where
  -- An item stands for a trail to its node, of the cost that it carries.
  abbrev pub Stands : HeapItem → Type 0
  Stands i = Trail cost loads graph origin (steps i) i.g

  neighbour-Stands :
      (current : HeapItem) (e : Edge)
      → edge e.edge_id graph ≡ some e
      → e.src ≡ current.node_id
      → Stands current
      → Stands (neighbour cost h loads current e)
  neighbour-Stands current e there src t =
      subst
        (λ n.
          Trail cost loads graph origin
            ((e.dst, some e.edge_id) ∷ (n, current.edge_id) ∷ current.parents)
            (current.g + cost e (load_of loads e.edge_id)))
        src
        (go e there (
          subst
            (λ n. Trail cost loads graph origin ((n, current.edge_id) ∷ current.parents) current.g)
            (sym src) t))

  relax_edge-Stands :
      (current : HeapItem) (e : Edge) (s : Search)
      → Stands current
      → edge e.edge_id graph ≡ some e
      → e.src ≡ current.node_id
      → All Stands s.open_heap
      → All Stands (relax_edge ops cost h loads current e s).open_heap
  unfolding relax_edge
  relax_edge-Stands current e s t there src all =
      let i = neighbour cost h loads current e in
      elim (Bool-cases (is_in e.dst s.closed)) [
        | inl shut ↦ rw (shut, relax_edge) all
        | inr free ↦ elim (Bool-cases (improves i.g (Dict.get e.dst s.best_g))) [
          | inr worse ↦ rw (free, worse, relax_edge) all
          | inl better ↦
              rw (free, better, relax_edge)
                (laws.push-All Stands i s.open_heap (neighbour-Stands current e there src t) all)
        ]
      ]

  relax-Stands :
      (current : HeapItem) (es : List Edge) (s : Search)
      → Stands current
      → All (λ (e : Edge). (edge e.edge_id graph ≡ some e) × (e.src ≡ current.node_id)) es
      → All Stands s.open_heap
      → All Stands (relax ops cost h loads current es s).open_heap
  unfolding relax
  relax-Stands current [] s t own all = all
  relax-Stands current (e ∷ es) s t own all =
      relax-Stands current es (relax_edge ops cost h loads current e s) t own.1
        (relax_edge-Stands current e s t own.0.0 own.0.1 all)

  -- A result that is a route is one.
  abbrev pub IsRoute : String → List PathStep → ℕ → Type 0
  IsRoute destination path total =
      (x : Option String) × (back : List PathStep) × (path ≡ reverse ((destination, x) ∷ back))
      × Trail cost loads graph origin ((destination, x) ∷ back) total

  found-IsRoute :
      (destination : String) (i : HeapItem) (path : List PathStep) (total : ℕ)
      → Stands i
      → i.node_id ≡ destination
      → found (reverse (steps i)) i.g ≡ found path total
      → IsRoute destination path total
  found-IsRoute destination i path total t there e =
      let same = found_injective e in
      subst (λ n. IsRoute n path total) there
        (
          i.edge_id,
          i.parents,
          sym same.0,
          subst (λ c. Trail cost loads graph origin (steps i) c) same.1 t,
        )

  search-IsRoute :
      (fuel : ℕ) (destination : String) (s : Search) (path : List PathStep) (total : ℕ)
      → All Stands s.open_heap
      → search ops cost h loads fuel graph destination s ≡ found path total
      → IsRoute destination path total
  unfolding search
  search-IsRoute zero destination s path total all e = absurd (ground arith)
  search-IsRoute (suc fuel) destination s path total all e =
      elim (Option-cases (ops.pop s.open_heap)) [
        | inl n ↦
            absurd (none_found (sym (search-empty ops cost h loads fuel graph destination s n) ∙ e))
        | inr ((current, rest), popped) ↦
            let both = laws.pop-All Stands s.open_heap rest current popped all in
            elim (Bool-cases (is_in current.node_id s.closed)) [
              | inl shut ↦
                  search-IsRoute fuel destination (record s { open_heap = rest }) path total both.1
                    (sym (
                        search-again ops cost h loads fuel graph destination s current rest popped
                          shut)
                      ∙ e)
              | inr free ↦ elim (Bool-cases (current.node_id == destination)) [
                | inl there ↦
                    found-IsRoute destination current path total both.0
                      ((eq_iff current.node_id destination).0 there)
                      (sym (
                          search-found ops cost h loads fuel graph destination s current rest popped
                            free there)
                        ∙ e)
                | inr elsewhere ↦
                    search-IsRoute fuel destination (expand ops cost h loads graph current rest s)
                      path total
                      (relax-Stands current (edges_from current.node_id graph) _ both.0
                        (edges_from-All graph current.node_id ordered_graph) both.1)
                      (sym (
                          search-on ops cost h loads fuel graph destination s current rest popped
                            free elsewhere)
                        ∙ e)
              ]
            ]
      ]

  -- In a graph in which each edge stands under its own identifier and each node lists only edges that
  -- leave it: a route that is found starts at the origin, ends at the destination, goes along edges of
  -- the graph, each from where the one before it ends, and costs the sum of their costs under the loads.
  pub find_path-IsRoute :
      (fuel : ℕ) (destination : String) (path : List PathStep) (total : ℕ)
      → find_path ops cost h loads fuel graph origin destination ≡ found path total
      → IsRoute destination path total
  unfolding find_path
  find_path-IsRoute fuel destination path total e = elim (Bool-cases (origin == destination)) [
    | inl same ↦
        found-IsRoute destination (start h origin) path total begin
          ((eq_iff origin destination).0 same)
          (sym (find_path-same ops cost h loads fuel graph origin destination same) ∙ e)
    | inr other ↦ elim (Option-cases (node origin graph)) [
      | inl n ↦ absurd (none_found (sym (rw (other, n, find_path) refl) ∙ e))
      | inr (a, na) ↦ elim (Option-cases (node destination graph)) [
        | inl n ↦ absurd (none_found (sym (rw (other, na, n, find_path) refl) ∙ e))
        | inr (b, nb) ↦
            search-IsRoute fuel destination (initial ops cost h loads origin) path total
              (laws.push-All Stands (start h origin) [] begin tt)
              (sym (find_path-search ops cost h loads fuel graph origin destination other na nb)
                ∙ e)
      ]
    ]
  ]
