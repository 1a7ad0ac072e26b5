-- ===== src/Routing/Distributor/Reasons.antt =====
-- Why services/routing/marga_routing/distributor.py moves a vehicle.
use marga.Prelude.{
  ◌<◌, ◌≤◌, ◌-◌, ◌*◌, none, leb, string_eq, ℕ, ◌≡◌, refl, ◌⊎◌, inl, inr, true, false, ◌&&◌, ◌||◌,
  Option, some, List, [], ◌∷◌, arith, Bool-cases, Option-cases,
}
use marga.Routing.Graph.{MobilityGraph, Edge, edge}
use marga.Routing.Pathfinder.{PathStep}
use marga.Routing.Distributor.{
  critical_hazard_threshold, is_material, is_some_reason, is_closure, should_reroute, check_trigger,
  max_hazard,
}

-- A closed edge, or one whose hazard is critical.
abbrev pub Trouble : Option Edge → Type 0
Trouble none = ⊥
Trouble (some e) =
    (e.metrics.closure ≡ true) ⊎ (critical_hazard_threshold ≤ e.metrics.hazard_penalty)

-- A path with such an edge.
abbrev pub Troubled : MobilityGraph → List PathStep → Type 0
Troubled g [] = ⊥
Troubled g ((_, none) ∷ path) = Troubled g path
Troubled g ((_, some i) ∷ path) = Trouble (edge i g) ⊎ Troubled g path

check_trigger-Troubled :
    (g : MobilityGraph) (path : List PathStep) → (check_trigger g path).0 ≡ true → Troubled g path
unfolding check_trigger
check_trigger-Troubled g [] e = ground (arith, e)
check_trigger-Troubled g ((n, none) ∷ path) e = check_trigger-Troubled g path e
check_trigger-Troubled g ((n, some i) ∷ path) e = elim (Option-cases (edge i g)) [
  | inl unknown ↦ inr (check_trigger-Troubled g path (ground (arith, unknown, e)))
  | inr (x, there) ↦ elim (Bool-cases x.metrics.closure) [
    | inl closed ↦ rw there (inl (inl closed))
    | inr open_edge ↦ elim (Bool-cases (leb critical_hazard_threshold x.metrics.hazard_penalty)) [
      | inl danger ↦ rw there (inl (inr (ground (arith, danger))))
      | inr calm ↦ inr (check_trigger-Troubled g path (ground (arith, there, open_edge, calm, e)))
    ]
  ]
]

max_hazard-Troubled :
    (g : MobilityGraph) (path : List PathStep)
    → critical_hazard_threshold ≤ max_hazard g path
    → Troubled g path
unfolding max_hazard
max_hazard-Troubled g [] e = absurd (omega (arith, e))
max_hazard-Troubled g ((n, none) ∷ path) e = max_hazard-Troubled g path e
max_hazard-Troubled g ((n, some i) ∷ path) e = elim (Option-cases (edge i g)) [
  | inl unknown ↦ inr (max_hazard-Troubled g path (ground (arith, unknown, e)))
  | inr (x, there) ↦ elim (Bool-cases (leb critical_hazard_threshold x.metrics.hazard_penalty)) [
    | inl danger ↦ rw there (inl (inr (ground (arith, danger))))
    | inr calm ↦ inr (max_hazard-Troubled g path (ground (arith, there, calm, e)))
  ]
]

-- A saving of a fifth of the cost.
abbrev pub Saves : Option ℕ → ℕ → Type 0
Saves old new = (n : ℕ) × (old ≡ some n) × (0 < n) × (n ≤ (n - new) * 5)

should_reroute-why :
    (old : Option ℕ) (new hazard : ℕ)
    → is_some_reason (should_reroute old new hazard false).1 ≡ true
    → (critical_hazard_threshold ≤ hazard) ⊎ Saves old new
unfolding should_reroute is_material
should_reroute-why none new hazard e = inl (ground arith)
should_reroute-why (some n) new hazard e =
    elim (Bool-cases (leb critical_hazard_threshold hazard)) [
      | inl danger ↦ inl (ground (arith, danger))
      | inr calm ↦ inr (n, refl, ground (arith, calm, e), ground (arith, calm, e))
    ]

pub why :
    (g : MobilityGraph) (old_path : List PathStep) (old : Option ℕ) (new : ℕ)
    → ((check_trigger g old_path).0
        || is_some_reason
            (should_reroute old new
              (max_hazard g old_path)
              ((check_trigger g old_path).0 && is_closure (check_trigger g old_path).1)).1)
      ≡ true
    → Troubled g old_path ⊎ Saves old new
why g old_path old new e = elim (Bool-cases (check_trigger g old_path).0) [
  | inl forced ↦ inl (check_trigger-Troubled g old_path forced)
  | inr free ↦ elim (should_reroute-why old new (max_hazard g old_path) (ground (arith, free, e))) [
    | inl danger ↦ inl (max_hazard-Troubled g old_path danger)
    | inr saves ↦ inr saves
  ]
]
