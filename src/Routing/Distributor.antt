-- ===== src/Routing/Distributor.antt =====
-- services/routing/marga_routing/distributor.py and the reroute rule of cost.py. Costs that are
-- infinite in the source are `none`; the ETAs of an assignment are left out.
pub mod Alternatives
pub mod Reasons
pub mod Assignment
use marga.Prelude.{
  ℕ, ◌+◌, ◌-◌, ◌*◌, max, String, Bool, true, false, not, ◌&&◌, ◌||◌, Option, none, some, List, [],
  ◌∷◌, ◌++◌, if◌then◌else◌, ltb, leb, nat_eqb, length, ◌==◌, string_eq,
}
use marga.Prelude.Dict
use marga.Prelude.Dict.{Dict}
use marga.Routing.Graph.{MobilityGraph, Edge, edge}
use marga.Routing.Pathfinder.{
  PathStep, HeapOps, load_of, Result, found, no_route, out_of_fuel, find_path, path_cost,
}

-- The reasons of a reroute; `nothing` is the empty text.
pub data Reason : Type 0 where
  nothing closure critical_hazard material_eta_improvement no_alternative_available : Reason

abbrev pub is_some_reason : Reason → Bool
is_some_reason nothing = false
is_some_reason _ = true

abbrev pub is_closure : Reason → Bool
is_closure closure = true
is_closure _ = false

-- `CRITICAL_HAZARD_THRESHOLD`, in thousandths.
abbrev pub critical_hazard_threshold : ℕ
critical_hazard_threshold = 700

-- `(old - new) / old >= MATERIAL_IMPROVEMENT_RATIO`, a fifth. For an infinite old cost the source
-- compares a NaN, which is false.
unfoldable pub is_material : Option ℕ → ℕ → Bool
is_material none new = false
is_material (some old) new = ltb 0 old && leb old ((old - new) * 5)

unfoldable pub should_reroute : Option ℕ → ℕ → ℕ → Bool → Bool × Reason
unfolding is_material
should_reroute old new hazard closed =
    if closed
    then (true, closure)
    else if leb critical_hazard_threshold hazard
    then (true, critical_hazard)
    else if is_material old new
    then (true, material_eta_improvement)
    else (false, nothing)

-- `_check_trigger`: the first edge of the path that is closed or dangerous.
unfoldable pub check_trigger : MobilityGraph → List PathStep → Bool × Reason
check_trigger g [] = (false, nothing)
check_trigger g ((_, none) ∷ path) = check_trigger g path
check_trigger g ((_, some i) ∷ path) =
    let rest = check_trigger g path in
    elim (edge i g) [
      | none ↦ rest
      | some e ↦
          if e.metrics.closure
          then (true, closure)
          else if leb critical_hazard_threshold e.metrics.hazard_penalty
          then (true, critical_hazard)
          else rest
    ]

unfoldable pub max_hazard : MobilityGraph → List PathStep → ℕ
max_hazard g [] = 0
max_hazard g ((_, none) ∷ path) = max_hazard g path
max_hazard g ((_, some i) ∷ path) =
    let rest = max_hazard g path in
    elim (edge i g) [ none ↦ rest | some e ↦ max e.metrics.hazard_penalty rest ]

-- `current_load > capacity * LOAD_CAPACITY_FRACTION`, three quarters.
unfoldable pub is_over : Edge → ℕ → Bool
is_over e load = ltb (e.capacity_vehicles * 3) ((e.metrics.vehicle_count + load) * 4)

unfoldable pub fits_capacity : MobilityGraph → Dict String ℕ → List PathStep → Bool
fits_capacity g loads [] = true
fits_capacity g loads ((_, none) ∷ path) = fits_capacity g loads path
fits_capacity g loads ((_, some i) ∷ path) =
    let rest = fits_capacity g loads path in
    elim (edge i g) [ none ↦ rest | some e ↦ if is_over e (load_of loads i) then false else rest ]

-- `==` on paths.
abbrev pub same_edge : Option String → Option String → Bool
same_edge none none = true
same_edge (some i) (some j) = i == j
same_edge _ _ = false

unfoldable pub same_path : List PathStep → List PathStep → Bool
same_path [] [] = true
same_path ((n, i) ∷ p) ((m, j) ∷ q) = n == m && same_edge i j && same_path p q
same_path _ _ = false

-- A route and its cost.
abbrev pub Alternative : Type 0
Alternative = List PathStep × ℕ

unfoldable pub is_listed : Alternative → List Alternative → Bool
unfolding same_path
is_listed a [] = false
is_listed a (b ∷ bs) = same_path a.0 b.0 && nat_eqb a.1 b.1 || is_listed a bs

-- `K_ALTERNATIVES`
abbrev pub k_alternatives : ℕ
k_alternatives = 3

pub record VehicleAssignment : Type 0 where
  pub vehicle_id : String
  pub old_path : List PathStep
  pub new_path : List PathStep
  pub old_cost : Option ℕ
  pub new_cost : Option ℕ
  pub reason : Reason
  pub triggered : Bool

-- `alt_cost < best_cost`
unfoldable pub is_cheaper : ℕ → Option ℕ → Bool
is_cheaper c none = true
is_cheaper c (some best) = ltb c best

-- One more vehicle on each edge of a path.
unfoldable pub add_load : List PathStep → Dict String ℕ → Dict String ℕ
unfolding load_of
add_load [] loads = loads
add_load ((_, none) ∷ path) loads = add_load path loads
add_load ((_, some i) ∷ path) loads = add_load path (Dict.put i (load_of loads i + 1) loads)

-- The loop over the alternatives: the one that is taken, and its reason.
unfoldable pub choose :
    MobilityGraph
    → Dict String ℕ
    → Option ℕ
    → ℕ
    → Bool × Reason
    → List Alternative
    → Option (Alternative × Reason)
choose g loads old hazard force [] = none
choose g loads old hazard force (a ∷ rest) =
    let later = choose g loads old hazard force rest in
    let reason = (should_reroute old a.1 hazard (force.0 && is_closure force.1)).1 in
    if (force.0 || is_some_reason reason) && is_cheaper a.1 old && fits_capacity g loads a.0
    then some (a, if is_some_reason reason then reason else force.1)
    else later

-- A vehicle of `plan`: its identifier, its end points and its path, if it has one.
pub record Vehicle : Type 0 where
  pub vehicle_id : String
  pub origin : String
  pub destination : String
  pub current_path : List PathStep

module _ (ops : HeapOps) (cost : Edge → ℕ → ℕ) (h : String → ℕ) (fuel : ℕ) (g : MobilityGraph) where
  -- `find_path`, as a list: no route is the empty path.
  unfoldable pub route : Dict String ℕ → String → String → Alternative
  route loads origin destination = elim (find_path ops cost h loads fuel g origin destination) [
    | found path total ↦ (path, total)
    | no_route ↦ ([], 0)
    | out_of_fuel ↦ ([], 0)
  ]

  -- The load that keeps the search off an edge.
  unfoldable pub saturate : String → Dict String ℕ → Dict String ℕ
  saturate i loads = elim (edge i g) [
    | none ↦ loads
    | some e ↦ Dict.put i e.capacity_vehicles loads
  ]

  abbrev pub is_nonempty : List PathStep → Bool
  is_nonempty [] = false
  is_nonempty (_ ∷ _) = true

  -- The loop of `_k_alternatives` over the edges of the primary path.
  unfoldable pub diversify :
      Dict String ℕ
      → String
      → String
      → List PathStep
      → List PathStep
      → List Alternative
      → List Alternative
  diversify loads origin destination primary [] found_so_far = found_so_far
  diversify loads origin destination primary ((_, none) ∷ rest) found_so_far =
      diversify loads origin destination primary rest found_so_far
  diversify loads origin destination primary ((_, some i) ∷ rest) found_so_far =
      let a = route (saturate i loads) origin destination in
      let now =
        if is_nonempty a.0 && not (same_path a.0 primary) && not (is_listed a found_so_far)
        then found_so_far ++ a ∷ []
        else found_so_far in
      let more = diversify loads origin destination primary rest now in
      if leb k_alternatives (length now) then now else more

  unfoldable pub alternatives : Dict String ℕ → String → String → List Alternative
  alternatives loads origin destination =
      let a = route loads origin destination in
      diversify loads origin destination a.0 a.0 (if is_nonempty a.0 then a ∷ [] else [])

  -- The body of the loop of `plan`, for a vehicle on `old_path`.
  unfoldable pub plan_vehicle :
      String → String → String → List PathStep → Dict String ℕ → VehicleAssignment × Dict String ℕ
  plan_vehicle vehicle_id origin destination old_path loads =
      let old = path_cost cost g loads old_path in
      let force = check_trigger g old_path in
      let unmoved : VehicleAssignment = record {
        vehicle_id = vehicle_id;
        old_path = old_path;
        new_path = old_path;
        old_cost = old;
        new_cost = old;
        reason = if force.0 then no_alternative_available else nothing;
        triggered = false;
      } in
      elim (choose g loads old (max_hazard g old_path) force
        (alternatives loads origin destination)) [
          | none ↦ (unmoved, loads)
          | some (a, reason) ↦
              if same_path a.0 old_path then (record unmoved { new_cost = some a.1 }, loads) else (
                record unmoved {
                  new_path = a.0;
                  new_cost = some a.1;
                  reason = reason;
                  triggered = true;
                },
                add_load a.0 loads,
              )
        ]

  unfoldable pub plan : List Vehicle → Dict String ℕ → List VehicleAssignment
  plan [] loads = []
  plan (v ∷ vs) loads =
      let old =
        if is_nonempty v.current_path
        then v.current_path
        else (route [] v.origin v.destination).0 in
      let (a, loads') = plan_vehicle v.vehicle_id v.origin v.destination old loads in
      a ∷ plan vs loads'
