-- ===== src/Routing/Graph/Ownership.antt =====
-- The edges that services/routing/marga_routing/graph.py gives for a node.
use mathlib.Core.Path.{subst}
use marga.Prelude.{
  ◌≡◌, refl, sym, ap, ◌∙◌, inl, inr, String, none, some, List, [], ◌∷◌, ◌++◌, arith, All,
  All-append, All-map, if◌then◌else◌, ◌==◌, string_eq, eqb_refl, Bool-cases, Option-cases,
}
use text.Mathlib.TextEquality.{eq_iff}
use marga.Prelude.Dict
use marga.Routing.Graph.{
  Node, Edge, EdgeMetrics, MobilityGraph, empty, adjacent, add_node, add_edge, ingest_metrics, edge,
  present, edges_from,
}

-- The identifier is that of an edge from the node.
abbrev pub Leaves : MobilityGraph → String → String → Type 0
Leaves g n i = (e : Edge) × (Dict.get i g.edges ≡ some e) × (e.src ≡ n)

pub record IsGraph (g : MobilityGraph) : Type 0 where
  pub keyed : (i : String) (e : Edge) → Dict.get i g.edges ≡ some e → e.edge_id ≡ i
  pub owned : (n : String) → All (Leaves g n) (adjacent n g)

present-All :
    (g : MobilityGraph) (n : String) (is : List String)
    → IsGraph g
    → All (Leaves g n) is
    → All (λ (e : Edge). (edge e.edge_id g ≡ some e) × (e.src ≡ n)) (present is g)
unfolding present edge
present-All g n [] k h = tt
present-All g n (i ∷ is) k ((e, there, src), h) =
    rw (there, present)
      ((ap (λ j. Dict.get j g.edges) (k.keyed i e there) ∙ there, src), present-All g n is k h)

-- Each edge that a node gives is in the graph, and starts at that node.
pub edges_from-All :
    (g : MobilityGraph) (n : String)
    → IsGraph g
    → All (λ (e : Edge). (edge e.edge_id g ≡ some e) × (e.src ≡ n)) (edges_from n g)
unfolding edges_from
edges_from-All g n k = present-All g n (adjacent n g) k (k.owned n)

pub empty-IsGraph : IsGraph empty
unfolding adjacent Dict.get
empty-IsGraph = record { keyed = λ i e f. absurd (ground arith); owned = λ n. tt }

adjacent-put :
    (m n : String) (is : List String) (g : MobilityGraph)
    → adjacent n (record g { adjacency = Dict.put m is g.adjacency })
      ≡ (if m == n then is else adjacent n g)
unfolding adjacent
adjacent-put m n is g = ground (arith, Dict.get-put m n is g.adjacency)

pub add_node-IsGraph : (m : Node) {g : MobilityGraph} → IsGraph g → IsGraph (add_node m g)
unfolding add_node
add_node-IsGraph m {g} k = record {
  keyed = k.keyed;
  owned = λ n. elim (Bool-cases (m.node_id == n)) [
    | inl same ↦
        subst (All (Leaves g n))
          (sym (
            adjacent-put m.node_id n (adjacent m.node_id g) g
            ∙ rw same (ap (λ j. adjacent j g) ((eq_iff m.node_id n).0 same))))
          (k.owned n)
    | inr other ↦
        subst (All (Leaves g n))
          (sym (adjacent-put m.node_id n (adjacent m.node_id g) g ∙ rw other refl)) (k.owned n)
  ];
}

module _ (e : Edge) (g : MobilityGraph) (new : Dict.get e.edge_id g.edges ≡ none) where
  kept :
      (n : String) (is : List String)
      → All (Leaves g n) is
      → All (Leaves (record g { edges = Dict.put e.edge_id e g.edges }) n) is
  kept n is = All-map is (λ i (x, there, src). (
    x,
    Dict.get-put_other e.edge_id i e g.edges (Dict.absent_differs e.edge_id i g.edges new there)
        ∙ there,
    src,
  ))

  adjacent-add :
      (n : String)
      → adjacent n (add_edge e g)
        ≡ (if e.src == n then adjacent e.src g ++ e.edge_id ∷ [] else adjacent n g)
  unfolding adjacent add_edge
  adjacent-add n =
      ground (arith, Dict.get-put e.src n (adjacent e.src g ++ e.edge_id ∷ []) g.adjacency)

-- An edge with a new identifier leaves the graph in order: each node still gives its own edges only.
pub add_edge-IsGraph :
    (e : Edge) {g : MobilityGraph}
    → Dict.get e.edge_id g.edges ≡ none
    → IsGraph g
    → IsGraph (add_edge e g)
unfolding add_edge
add_edge-IsGraph e {g} new k = record {
  keyed =
      λ i x f. ground (arith, Dict.get-put e.edge_id i e g.edges, k.keyed i x, eq_iff e.edge_id i);
  owned = λ n. elim (Bool-cases (e.src == n)) [
    | inr other ↦
        subst (All (Leaves (add_edge e g) n)) (sym (adjacent-add e g new n ∙ rw other refl))
          (kept e g new n (adjacent n g) (k.owned n))
    | inl same ↦
        subst (λ m. All (Leaves (add_edge e g) m) (adjacent m (add_edge e g)))
          ((eq_iff e.src n).0 same)
          (subst (All (Leaves (add_edge e g) e.src))
            (sym (adjacent-add e g new e.src ∙ rw (eqb_refl e.src) refl))
            (All-append (Leaves (add_edge e g) e.src) (adjacent e.src g) (e.edge_id ∷ [])
              (kept e g new e.src (adjacent e.src g) (k.owned e.src))
              ((e, Dict.get-put_self e.edge_id e g.edges, refl), tt)))
  ];
}

renew-Leaves :
    (g : MobilityGraph) (n i j : String) (m : EdgeMetrics) (e : Edge)
    → Dict.get j g.edges ≡ some e
    → Leaves g n i
    → Leaves (record g { edges = Dict.put j (record e { metrics = m }) g.edges }) n i
renew-Leaves g n i j m e held (x, there, src) = elim (Bool-cases (j == i)) [
  | inr other ↦ (x, Dict.get-put_other j i (record e { metrics = m }) g.edges other ∙ there, src)
  | inl same ↦
      let at_i : j ≡ i = (eq_iff j i).0 same in
      let is_x : e ≡ x =
        Dict.some_injective (sym held ∙ ap (λ q. Dict.get q g.edges) at_i ∙ there) in
      (
        record e { metrics = m },
        ap (λ q. Dict.get q (Dict.put j (record e { metrics = m }) g.edges)) (sym at_i)
            ∙ Dict.get-put_self j (record e { metrics = m }) g.edges,
        ap (λ (y : Edge). y.src) is_x ∙ src,
      )
]

-- New metrics leave the graph in order.
pub ingest_metrics-IsGraph :
    (j : String) (m : EdgeMetrics) {g : MobilityGraph} → IsGraph g → IsGraph (ingest_metrics j m g)
unfolding ingest_metrics adjacent
ingest_metrics-IsGraph j m {g} k = elim (Option-cases (Dict.get j g.edges)) [
  | inl e ↦ rw (e, ingest_metrics) k
  | inr (e, held) ↦
      rw (held, ingest_metrics)
        (record {
          keyed = λ i x f. elim (Bool-cases (j == i)) [
            | inr other ↦
                k.keyed i x
                  (sym (Dict.get-put_other j i (record e { metrics = m }) g.edges other) ∙ f)
            | inl same ↦
                let at_i : j ≡ i = (eq_iff j i).0 same in
                let is_x : Path Edge (record e { metrics = m }) x = Dict.some_injective (
                  sym (Dict.get-put_self j (record e { metrics = m }) g.edges)
                  ∙ ap (λ q. Dict.get q (Dict.put j (record e { metrics = m }) g.edges)) at_i
                  ∙ f) in
                ap (λ (y : Edge). y.edge_id) (sym is_x) ∙ k.keyed j e held ∙ at_i
          ];
          owned = λ n. All-map (adjacent n g) (λ i l. renew-Leaves g n i j m e held l) (k.owned n);
        })
]
