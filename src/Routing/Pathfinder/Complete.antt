-- ===== src/Routing/Pathfinder/Complete.antt =====
-- `find_path` of services/routing/marga_routing/pathfinder.py finds a route wherever there is one.
use mathlib.Core.Path.{subst}
use marga.Prelude.{
  ℕ, zero, suc, ◌+◌, ◌<◌, ◌≡◌, ◌≢◌, refl, sym, ap, ◌∙◌, ◌⊎◌, inl, inr, String, true, false, none,
  some, List, [], ◌∷◌, arith, All, All-map, ◌==◌, string_eq, Bool-cases, Option-cases,
}
use text.Mathlib.TextEquality.{eq_iff}
use marga.Prelude.Dict
use marga.Prelude.Dict.{Dict}
use marga.Routing.Graph.{MobilityGraph, Node, Edge, node, edges_from}
use marga.Routing.Pathfinder.{
  PathStep, HeapItem, HeapOps, is_in, Search, Result, found, no_route, out_of_fuel, search, start,
  initial, find_path,
}
use marga.Routing.Pathfinder.Heap.{IsHeap}
use marga.Routing.Pathfinder.Step.{
  expand, search-fuel, search-again, search-found, search-on, find_path-same, find_path-search,
}
use marga.Routing.Pathfinder.Fuel.{relax-closed, work, sources, find_path-returns}
use marga.Routing.Pathfinder.Reach.{
  Reachable, here, along, pending, Covered, lookup_middle, push-pending, relax-covers, relax-keeps,
  Costed, pop-Covered, again-Covered,
}

fuel_no_route : out_of_fuel ≢ no_route
fuel_no_route e = ground (arith, e)

Result-cases :
    (r : Result)
    → ((path : List PathStep) × (total : ℕ) × (r ≡ found path total))
      ⊎ ((r ≡ no_route) ⊎ (r ≡ out_of_fuel))
Result-cases (found path total) = inl (path, total, refl)
Result-cases no_route = inr (inl refl)
Result-cases out_of_fuel = inr (inr refl)

found_no_route : {p : List PathStep} {n : ℕ} → found p n ≢ no_route
found_no_route e = ground (arith, e)

module _ (ops : HeapOps) (laws : IsHeap ops) (cost : Edge → ℕ → ℕ) (h : String → ℕ)
    (loads : Dict String ℕ) (graph : MobilityGraph) (origin destination : String) where
  -- What has been closed, and what is still to come.
  record Frontier (s : Search) : Type 0 where
    costed : Costed ops laws cost h loads graph s
    edges :
        (n : String)
        → is_in n s.closed ≡ true
        → All (λ (e : Edge). Covered e.dst s) (edges_from n graph)
    begun : Covered origin s
    not_yet : is_in destination s.closed ≡ false

  again-Frontier :
      (s : Search) (current : HeapItem) (rest : List HeapItem)
      → ops.pop s.open_heap ≡ some (current, rest)
      → is_in current.node_id s.closed ≡ true
      → Frontier s
      → Frontier (record s { open_heap = rest })
  again-Frontier s current rest popped shut f =
      let keep : (v : String) → Covered v s → Covered v (record s { open_heap = rest }) =
        λ v c. again-Covered ops laws cost h loads graph v s current rest popped shut c in
      record {
        costed = λ v k e. keep v (f.costed v k e);
        edges = λ n e. All-map (edges_from n graph) (λ x c. keep x.dst c) (f.edges n e);
        begun = keep origin f.begun;
        not_yet = f.not_yet;
      }

  expand-Frontier :
      (s : Search) (current : HeapItem) (rest : List HeapItem)
      → ops.pop s.open_heap ≡ some (current, rest)
      → (current.node_id == destination) ≡ false
      → Frontier s
      → Frontier (expand ops cost h loads graph current rest s)
  unfolding is_in
  expand-Frontier s current rest popped elsewhere f =
      let s' : Search = record s { open_heap = rest; closed = current.node_id ∷ s.closed } in
      let es = edges_from current.node_id graph in
      let pop : (v : String) → Covered v s → Covered v s' =
        λ v c. pop-Covered ops laws cost h loads graph v s current rest popped c in
      let keep : (v : String)
          → Covered v s
          → Covered v (expand ops cost h loads graph current rest s) =
        λ v c. relax-keeps ops laws cost h loads graph v current es s' (pop v c) in
      let both =
        relax-covers ops laws cost h loads graph current es s' (λ v k e. pop v (f.costed v k e)) in
      let same = relax-closed ops laws cost h loads graph current es s' in
      record {
        costed = both.0;
        edges = λ n e. elim (Bool-cases (current.node_id == n)) [
          | inl this ↦
              subst
                (λ m.
                  All (λ (x : Edge). Covered x.dst (expand ops cost h loads graph current rest s))
                    (edges_from m graph))
                ((eq_iff current.node_id n).0 this) both.1
          | inr other ↦
              let before : is_in n s.closed ≡ true =
                ground (arith, sym (ap (is_in n) same) ∙ e, other) in
              All-map (edges_from n graph) (λ x c. keep x.dst c) (f.edges n before)
        ];
        begun = keep origin f.begun;
        not_yet = ap (is_in destination) same ∙ ground (arith, elsewhere, f.not_yet);
      }

  -- With an empty heap, every node that can be reached is closed.
  closed-all :
      (s : Search)
      → Frontier s
      → s.open_heap ≡ []
      → {n : String} → Reachable graph origin n
      → is_in n s.closed ≡ true
  unfolding pending
  closed-all s f nil here = ground (arith, f.begun, ap (pending origin) nil)
  closed-all s f nil (along before e after split r) =
      let cover =
        lookup_middle (λ (x : Edge). Covered x.dst s) before e after
          (subst (All (λ (x : Edge). Covered x.dst s)) split (f.edges _ (closed-all s f nil r))) in
      ground (arith, cover, ap (pending e.dst) nil)

  search-misses :
      (fuel : ℕ) (s : Search)
      → Frontier s
      → search ops cost h loads fuel graph destination s ≡ no_route
      → Reachable graph origin destination
      → ⊥
  search-misses zero s f e r =
      fuel_no_route (sym (search-fuel ops cost h loads graph destination s) ∙ e)
  search-misses (suc fuel) s f e r = elim (Option-cases (ops.pop s.open_heap)) [
    | inl n ↦ absurd (ground (arith, closed-all s f (laws.pop-none s.open_heap n) r, f.not_yet))
    | inr ((current, rest), popped) ↦ elim (Bool-cases (is_in current.node_id s.closed)) [
      | inl shut ↦
          search-misses fuel (record s { open_heap = rest })
            (again-Frontier s current rest popped shut f)
            (sym (search-again ops cost h loads fuel graph destination s current rest popped shut)
              ∙ e)
            r
      | inr free ↦ elim (Bool-cases (current.node_id == destination)) [
        | inl there ↦ found_no_route (
            sym (
              search-found ops cost h loads fuel graph destination s current rest popped free there)
            ∙ e)
        | inr elsewhere ↦
            search-misses fuel (expand ops cost h loads graph current rest s)
              (expand-Frontier s current rest popped elsewhere f)
              (sym (
                  search-on ops cost h loads fuel graph destination s current rest popped free
                    elsewhere)
                ∙ e)
              r
      ]
    ]
  ]

  initial-Frontier : (origin == destination) ≡ false → Frontier (initial ops cost h loads origin)
  unfolding pending is_in Dict.get
  initial-Frontier other = record {
    costed = λ v k e. elim (Bool-cases (origin == v)) [
      | inl same ↦
          subst (λ w. Covered w (initial ops cost h loads origin)) ((eq_iff origin v).0 same) begins
      | inr no_cost ↦ absurd (ground arith)
    ];
    edges = λ n e. absurd (ground arith);
    begun = begins;
    not_yet = refl;
  }
    where
      begins : Covered origin (initial ops cost h loads origin)
      begins = push-pending ops laws (start h origin) []

  -- Where the origin and the destination are nodes, edges lead from the one to the other, and there is
  -- fuel for two more rounds than the nodes list edges, `find_path` returns a route.
  pub find_path-found :
      (fuel : ℕ) {a b : Node}
      → work graph (sources graph) [] + 1 < fuel
      → node origin graph ≡ some a
      → node destination graph ≡ some b
      → Reachable graph origin destination
      → (path : List PathStep) × (total : ℕ) × (find_path ops cost h loads fuel graph origin
            destination
          ≡ found path total)
  find_path-found fuel enough na nb r = elim (Bool-cases (origin == destination)) [
    | inl same ↦
        ((origin, none) ∷ [], 0, find_path-same ops cost h loads fuel graph origin destination same)
    | inr other ↦ elim (Result-cases (find_path ops cost h loads fuel graph origin destination)) [
      | inl route ↦ route
      | inr (inr e) ↦
          absurd (find_path-returns ops laws cost h loads graph fuel origin destination enough e)
      | inr (inl e) ↦ absurd (
          search-misses fuel (initial ops cost h loads origin) (initial-Frontier other)
            (sym (find_path-search ops cost h loads fuel graph origin destination other na nb) ∙ e)
            r)
    ]
  ]
