-- ===== src/Routing/Pathfinder/Fuel.antt =====
-- The number of rounds that `find_path` of services/routing/marga_routing/pathfinder.py needs.
use mathlib.Core.Path.{subst}
use marga.Prelude.{
  ℕ, zero, suc, ◌+◌, ◌≤◌, ◌<◌, ◌≡◌, ◌≢◌, refl, sym, ap, ◌∙◌, inl, inr, String, false, none, List,
  [], ◌∷◌, arith, length, map, if◌then◌else◌, ◌==◌, string_eq, Bool-cases, Option-cases,
}
use text.Mathlib.TextEquality.{eq_iff}
use marga.Prelude.Dict
use marga.Prelude.Dict.{Dict}
use marga.Routing.Graph.{MobilityGraph, Edge, node, adjacent, present, edges_from}
use marga.Routing.Pathfinder.{
  PathStep, HeapItem, HeapOps, is_in, Search, found, no_route, out_of_fuel, neighbour, relax_edge,
  relax, search, start, initial, find_path,
}
use marga.Routing.Pathfinder.Heap.{IsHeap}
use marga.Routing.Pathfinder.Step.{
  expand, search-empty, search-again, search-found, search-on, find_path-same, find_path-search,
}

abbrev pub degree : MobilityGraph → String → ℕ
degree graph n = length (edges_from n graph)

-- The edges of the nodes that are not closed.
unfoldable pub work : MobilityGraph → List String → List String → ℕ
work graph [] closed = 0
work graph (n ∷ ns) closed = (if is_in n closed then 0 else degree graph n) + work graph ns closed

-- The nodes that may have edges.
abbrev pub sources : MobilityGraph → List String
sources graph = map (λ e. e.0) graph.adjacency

-- Closing a node takes its edges off the work.
close-work :
    (graph : MobilityGraph) (n : String) (ns closed : List String)
    → is_in n closed ≡ false
    → work graph ns (n ∷ closed) + (if is_in n ns then degree graph n else 0) ≤ work graph ns closed
unfolding work is_in
close-work graph n [] closed free = omega arith
close-work graph n (m ∷ ns) closed free = elim (Bool-cases (m == n)) [
  | inr other ↦ ground (arith, close-work graph n ns closed free, eq_iff m n, eq_iff n m)
  | inl same ↦
      subst
        (λ k.
          work graph (k ∷ ns) (n ∷ closed) + (if is_in n (k ∷ ns) then degree graph n else 0)
          ≤ work graph (k ∷ ns) closed)
        (sym ((eq_iff m n).0 same)) (ground (arith, close-work graph n ns closed free, eq_iff n n))
]

get-sources :
    (n : String) (d : Dict String (List String))
    → is_in n (map (λ e. e.0) d) ≡ false
    → Dict.get n d ≡ none
unfolding is_in Dict.get
get-sources n [] e = refl
get-sources n ((m, xs) ∷ d) e = ground (arith, get-sources n d)

no_adjacent :
    (n : String) (graph : MobilityGraph) → Dict.get n graph.adjacency ≡ none → adjacent n graph ≡ []
unfolding adjacent
no_adjacent n graph e = rw (e, adjacent) refl

no_source-degree :
    (graph : MobilityGraph) (n : String) → is_in n (sources graph) ≡ false → degree graph n ≡ 0
unfolding edges_from present
no_source-degree graph n e =
    ap (λ is. length (present is graph)) (no_adjacent n graph (get-sources n graph.adjacency e))

close-all :
    (graph : MobilityGraph) (n : String) (closed : List String)
    → is_in n closed ≡ false
    → work graph (sources graph) (n ∷ closed) + degree graph n ≤ work graph (sources graph) closed
close-all graph n closed free = elim (Bool-cases (is_in n (sources graph))) [
  | inl e ↦ ground (arith, close-work graph n (sources graph) closed free)
  | inr e ↦
      ground (arith, close-work graph n (sources graph) closed free, no_source-degree graph n e)
]

no_route-fuel : no_route ≢ out_of_fuel
no_route-fuel e = ground (arith, e)

found-fuel : {p : List PathStep} {n : ℕ} → found p n ≢ out_of_fuel
found-fuel e = ground (arith, e)

module _ (ops : HeapOps) (laws : IsHeap ops) (cost : Edge → ℕ → ℕ) (h : String → ℕ)
    (loads : Dict String ℕ) (graph : MobilityGraph) where
  relax_edge-length :
      (current : HeapItem) (e : Edge) (s : Search)
      → length (relax_edge ops cost h loads current e s).open_heap ≤ length s.open_heap + 1
  unfolding relax_edge
  relax_edge-length current e s =
      ground (arith, laws.push-length (neighbour cost h loads current e) s.open_heap)

  relax-length :
      (current : HeapItem) (es : List Edge) (s : Search)
      → length (relax ops cost h loads current es s).open_heap ≤ length s.open_heap + length es
  unfolding relax
  relax-length current [] s = omega arith
  relax-length current (e ∷ es) s = omega (
    arith,
    relax-length current es (relax_edge ops cost h loads current e s),
    relax_edge-length current e s,
  )

  pub relax-closed :
      (current : HeapItem) (es : List Edge) (s : Search)
      → (relax ops cost h loads current es s).closed ≡ s.closed
  unfolding relax relax_edge
  relax-closed current [] s = refl
  relax-closed current (e ∷ es) s =
      ground (arith, relax-closed current es (relax_edge ops cost h loads current e s))

  expand-less :
      (current : HeapItem) (rest : List HeapItem) (s : Search) (fuel : ℕ)
      → is_in current.node_id s.closed ≡ false
      → length s.open_heap ≡ suc (length rest)
      → length s.open_heap + work graph (sources graph) s.closed < suc fuel
      → length (expand ops cost h loads graph current rest s).open_heap
          + work graph (sources graph) (expand ops cost h loads graph current rest s).closed
        < fuel
  expand-less current rest s fuel free shorter enough =
      let s' : Search = record s { open_heap = rest; closed = current.node_id ∷ s.closed } in
      omega (
        arith,
        relax-length current (edges_from current.node_id graph) s',
        ap (work graph (sources graph))
            (relax-closed current (edges_from current.node_id graph) s'),
        close-all graph current.node_id s.closed free,
        shorter,
        enough,
      )

  search-returns :
      (fuel : ℕ) (destination : String) (s : Search)
      → length s.open_heap + work graph (sources graph) s.closed < fuel
      → search ops cost h loads fuel graph destination s ≢ out_of_fuel
  search-returns zero destination s enough = absurd (omega (arith, enough))
  search-returns (suc fuel) destination s enough = elim (Option-cases (ops.pop s.open_heap)) [
    | inl n ↦
        λ e. no_route-fuel (sym (search-empty ops cost h loads fuel graph destination s n) ∙ e)
    | inr ((current, rest), popped) ↦
        let shorter = laws.pop-length s.open_heap rest current popped in
        elim (Bool-cases (is_in current.node_id s.closed)) [
          | inl shut ↦ λ e.
              search-returns fuel destination (record s { open_heap = rest })
                (omega (arith, shorter, enough))
                (sym (
                    search-again ops cost h loads fuel graph destination s current rest popped shut)
                  ∙ e)
          | inr free ↦ elim (Bool-cases (current.node_id == destination)) [
            | inl there ↦ λ e. found-fuel (
                sym (
                  search-found ops cost h loads fuel graph destination s current rest popped free
                    there)
                ∙ e)
            | inr elsewhere ↦ λ e.
                search-returns fuel destination (expand ops cost h loads graph current rest s)
                  (expand-less current rest s fuel free shorter enough)
                  (sym (
                      search-on ops cost h loads fuel graph destination s current rest popped free
                        elsewhere)
                    ∙ e)
          ]
        ]
  ]

  -- Fuel of two more than the number of edges that the nodes list is enough: `find_path` then finds a
  -- route or says that there is none.
  pub find_path-returns :
      (fuel : ℕ) (origin destination : String)
      → work graph (sources graph) [] + 1 < fuel
      → find_path ops cost h loads fuel graph origin destination ≢ out_of_fuel
  unfolding find_path
  find_path-returns fuel origin destination enough = elim (Bool-cases (origin == destination)) [
    | inl same ↦ λ e.
        found-fuel (sym (find_path-same ops cost h loads fuel graph origin destination same) ∙ e)
    | inr other ↦ elim (Option-cases (node origin graph)) [
      | inl n ↦ λ e. no_route-fuel (sym (rw (other, n, find_path) refl) ∙ e)
      | inr (a, na) ↦ elim (Option-cases (node destination graph)) [
        | inl n ↦ λ e. no_route-fuel (sym (rw (other, na, n, find_path) refl) ∙ e)
        | inr (b, nb) ↦ λ e.
            search-returns fuel destination (initial ops cost h loads origin)
              (omega (arith, laws.push-length (start h origin) [], enough))
              (sym (find_path-search ops cost h loads fuel graph origin destination other na nb)
                ∙ e)
      ]
    ]
  ]
