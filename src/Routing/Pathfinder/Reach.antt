-- ===== src/Routing/Pathfinder/Reach.antt =====
-- The routes that services/routing/marga_routing/pathfinder.py does not miss.
use mathlib.Core.Path.{subst}
use marga.Prelude.{
  ℕ, ◌≡◌, refl, sym, ◌∙◌, inl, inr, String, Bool, true, false, ◌||◌, some, List, [], ◌∷◌, ◌++◌,
  arith, All, ◌==◌, string_eq, eqb_refl, Bool-cases, Option-cases,
}
use text.Mathlib.TextEquality.{eq_iff}
use marga.Prelude.Dict
use marga.Prelude.Dict.{Dict}
use marga.Routing.Graph.{MobilityGraph, Edge, edges_from}
use marga.Routing.Pathfinder.{
  HeapItem, HeapOps, is_in, Search, improves, neighbour, relax_edge, relax,
}
use marga.Routing.Pathfinder.Heap.{IsHeap}

-- The nodes that some edges lead to.
pub data Reachable (graph : MobilityGraph) (origin : String) : String → Type 0 where
  here : Reachable graph origin origin
  along :
      {n : String} (before : List Edge) (e : Edge) (after : List Edge)
      → edges_from n graph ≡ before ++ e ∷ after
      → Reachable graph origin n
      → Reachable graph origin e.dst

-- An item for the node is in the heap.
unfoldable pub pending : String → List HeapItem → Bool
pending v [] = false
pending v (i ∷ is) = i.node_id == v || pending v is

abbrev Misses : String → HeapItem → Type 0
Misses v i = (i.node_id == v) ≡ false

pending-All : (v : String) (is : List HeapItem) → pending v is ≡ false → All (Misses v) is
unfolding pending
pending-All v [] e = tt
pending-All v (i ∷ is) e = (ground arith, pending-All v is (ground arith))

All-pending : (v : String) (is : List HeapItem) → All (Misses v) is → pending v is ≡ false
unfolding pending
All-pending v [] h = refl
All-pending v (i ∷ is) h = ground (arith, h.0, All-pending v is h.1)

-- The search has closed the node, or will come to it.
abbrev pub Covered : String → Search → Type 0
Covered v s = (is_in v s.closed || pending v s.open_heap) ≡ true

pub lookup_middle :
    (P : Edge → Type 0) (before : List Edge) (e : Edge) (after : List Edge)
    → All P (before ++ e ∷ after)
    → P e
lookup_middle P [] e after h = h.0
lookup_middle P (x ∷ before) e after h = lookup_middle P before e after h.1

module _ (ops : HeapOps) (laws : IsHeap ops) where
  pub push-pending : (i : HeapItem) (is : List HeapItem) → pending i.node_id (ops.push i is) ≡ true
  push-pending i is = elim (Bool-cases (pending i.node_id (ops.push i is))) [
    | inl e ↦ e
    | inr e ↦
        let miss =
          (laws.All-push (Misses i.node_id) i is (pending-All i.node_id (ops.push i is) e)).0 in
        absurd (ground (arith, miss, eqb_refl i.node_id))
  ]

  push-keeps :
      (v : String) (i : HeapItem) (is : List HeapItem)
      → pending v is ≡ true
      → pending v (ops.push i is) ≡ true
  push-keeps v i is p = elim (Bool-cases (pending v (ops.push i is))) [
    | inl e ↦ e
    | inr e ↦
        let none_in =
          All-pending v is (laws.All-push (Misses v) i is (pending-All v (ops.push i is) e)).1 in
        absurd (ground (arith, none_in, p))
  ]

  pop-keeps :
      (v : String) (is rest : List HeapItem) (i : HeapItem)
      → ops.pop is ≡ some (i, rest)
      → pending v is ≡ true
      → (i.node_id == v || pending v rest) ≡ true
  pop-keeps v is rest i popped p = elim (Bool-cases (i.node_id == v || pending v rest)) [
    | inl e ↦ e
    | inr e ↦
        let none_in = All-pending v is (
          laws.All-pop (Misses v) is rest i popped (ground arith)
            (pending-All v rest (ground arith))) in
        absurd (ground (arith, none_in, p))
  ]

  module _ (cost : Edge → ℕ → ℕ) (h : String → ℕ) (loads : Dict String ℕ)
      (graph : MobilityGraph) where
    relax_edge-keeps :
        (v : String) (current : HeapItem) (e : Edge) (s : Search)
        → Covered v s
        → Covered v (relax_edge ops cost h loads current e s)
    unfolding relax_edge
    relax_edge-keeps v current e s c =
        ground (arith, push-keeps v (neighbour cost h loads current e) s.open_heap)

    pub relax-keeps :
        (v : String) (current : HeapItem) (es : List Edge) (s : Search)
        → Covered v s
        → Covered v (relax ops cost h loads current es s)
    unfolding relax
    relax-keeps v current [] s c = c
    relax-keeps v current (e ∷ es) s c =
        relax-keeps v current es (relax_edge ops cost h loads current e s)
          (relax_edge-keeps v current e s c)

    -- Every node that has a cost is covered.
    abbrev pub Costed : Search → Type 0
    Costed s = (v : String) (k : ℕ) → Dict.get v s.best_g ≡ some k → Covered v s

    relax_edge-covers :
        (current : HeapItem) (e : Edge) (s : Search)
        → Costed s
        → Covered e.dst (relax_edge ops cost h loads current e s)
    unfolding relax_edge improves
    relax_edge-covers current e s b =
        let i = neighbour cost h loads current e in
        elim (Option-cases (Dict.get e.dst s.best_g)) [
          | inl new ↦ ground (arith, push-pending i s.open_heap)
          | inr (k, old) ↦ ground (arith, push-pending i s.open_heap, b e.dst k old)
        ]

    relax_edge-best :
        (v : String) (current : HeapItem) (e : Edge) (s : Search)
        → (e.dst == v) ≡ false
        → Dict.get v (relax_edge ops cost h loads current e s).best_g ≡ Dict.get v s.best_g
    unfolding relax_edge
    relax_edge-best v current e s other =
        ground (arith, Dict.get-put e.dst v (neighbour cost h loads current e).g s.best_g)

    relax_edge-Costed :
        (current : HeapItem) (e : Edge) (s : Search)
        → Costed s
        → Costed (relax_edge ops cost h loads current e s)
    relax_edge-Costed current e s b v k f = elim (Bool-cases (e.dst == v)) [
      | inl same ↦
          subst (λ w. Covered w (relax_edge ops cost h loads current e s)) ((eq_iff e.dst v).0 same)
            (relax_edge-covers current e s b)
      | inr other ↦
          relax_edge-keeps v current e s (b v k (sym (relax_edge-best v current e s other) ∙ f))
    ]

    pub relax-covers :
        (current : HeapItem) (es : List Edge) (s : Search)
        → Costed s
        → Costed (relax ops cost h loads current es s)
          × All (λ (e : Edge). Covered e.dst (relax ops cost h loads current es s)) es
    unfolding relax
    relax-covers current [] s b = (b, tt)
    relax-covers current (e ∷ es) s b =
        let s' = relax_edge ops cost h loads current e s in
        let (b', all) = relax-covers current es s' (relax_edge-Costed current e s b) in
        (b', (relax-keeps e.dst current es s' (relax_edge-covers current e s b), all))

    pub pop-Covered :
        (v : String) (s : Search) (current : HeapItem) (rest : List HeapItem)
        → ops.pop s.open_heap ≡ some (current, rest)
        → Covered v s
        → Covered v (record s { open_heap = rest; closed = current.node_id ∷ s.closed })
    unfolding is_in
    pop-Covered v s current rest popped c =
        ground (arith, pop-keeps v s.open_heap rest current popped)

    pub again-Covered :
        (v : String) (s : Search) (current : HeapItem) (rest : List HeapItem)
        → ops.pop s.open_heap ≡ some (current, rest)
        → is_in current.node_id s.closed ≡ true
        → Covered v s
        → Covered v (record s { open_heap = rest })
    again-Covered v s current rest popped shut c = elim (Bool-cases (current.node_id == v)) [
      | inl same ↦
          let closed_v : is_in v s.closed ≡ true =
            subst (λ n. is_in n s.closed ≡ true) ((eq_iff current.node_id v).0 same) shut in
          ground (arith, closed_v)
      | inr other ↦ ground (arith, pop-keeps v s.open_heap rest current popped)
    ]
