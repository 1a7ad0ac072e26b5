-- ===== src/Routing/Distributor/Assignment.antt =====
-- When services/routing/marga_routing/distributor.py moves a vehicle.
use mathlib.Core.Path.{subst}
use text.Mathlib.TextEquality.{eq_iff}
use marga.Prelude.{
  All, ◌<◌, ◌≤◌, ◌+◌, ◌*◌, none, ◌==◌, string_eq, ℕ, ◌≡◌, refl, sym, ap, ◌∙◌, ◌⊎◌, inl, inr, String,
  Bool, true, false, ◌&&◌, ◌||◌, Option, some, List, [], ◌∷◌, arith, if◌then◌else◌, Bool-cases,
  Option-cases,
}
use marga.Prelude.Dict
use marga.Prelude.Dict.{Dict}
use marga.Routing.Graph.{MobilityGraph, Edge, edge}
use marga.Routing.Pathfinder.{PathStep, HeapOps, path_cost, load_of}
use marga.Routing.Distributor.Alternatives.{IsFound, alternatives-IsFound}
use marga.Routing.Distributor.Reasons.{Troubled, Saves, why}
use marga.Routing.Distributor.{
  is_over, Reason, is_some_reason, is_closure, should_reroute, check_trigger, max_hazard,
  fits_capacity, same_path, Alternative, VehicleAssignment, is_cheaper, add_load, choose,
  alternatives, plan_vehicle,
}

-- An alternative with its reason, as `choose` gives it.
choice_injective :
    {a b : Alternative} {r q : Reason}
    → Path (Option (Alternative × Reason)) (some (a, r)) (some (b, q))
    → a ≡ b
choice_injective e = ap (λ (p : Alternative × Reason). p.0) (Dict.some_injective e)

module _ (g : MobilityGraph) (loads : Dict String ℕ) (old : Option ℕ) (hazard : ℕ)
    (force : Bool × Reason) (b : Alternative) (rest : List Alternative) where
  abbrev qualifies : Bool
  qualifies =
      (force.0 || is_some_reason (should_reroute old b.1 hazard (force.0 && is_closure force.1)).1)
      && is_cheaper b.1 old
      && fits_capacity g loads b.0

  choose-taken :
      qualifies ≡ true
      → choose g loads old hazard force (b ∷ rest)
        ≡ some (
          b,
          (let reason = (should_reroute old b.1 hazard (force.0 && is_closure force.1)).1 in
              if is_some_reason reason then reason else force.1),
        )
  unfolding choose
  choose-taken e = rw (e, choose) refl

  choose-skipped :
      qualifies ≡ false
      → choose g loads old hazard force (b ∷ rest) ≡ choose g loads old hazard force rest
  unfolding choose
  choose-skipped e = rw (e, choose) refl

-- The cost is below the present one, which may be infinite.
abbrev pub IsBelow : ℕ → Option ℕ → Type 0
IsBelow new none = Unit
IsBelow new (some old) = new < old

-- The vehicles on an edge, with those that a plan adds, are at most three quarters of its capacity.
abbrev pub RoomOn : Option Edge → ℕ → Type 0
RoomOn none load = Unit
RoomOn (some e) load = (e.metrics.vehicle_count + load) * 4 ≤ e.capacity_vehicles * 3

-- Each edge of the path has room.
abbrev pub HasRoom : MobilityGraph → Dict String ℕ → List PathStep → Type 0
HasRoom g loads [] = Unit
HasRoom g loads ((_, none) ∷ path) = HasRoom g loads path
HasRoom g loads ((_, some i) ∷ path) = RoomOn (edge i g) (load_of loads i) × HasRoom g loads path

fits_capacity-HasRoom :
    (g : MobilityGraph) (loads : Dict String ℕ) (path : List PathStep)
    → fits_capacity g loads path ≡ true
    → HasRoom g loads path
unfolding fits_capacity is_over
fits_capacity-HasRoom g loads [] e = tt
fits_capacity-HasRoom g loads ((n, none) ∷ path) e = fits_capacity-HasRoom g loads path e
fits_capacity-HasRoom g loads ((n, some i) ∷ path) e = elim (Option-cases (edge i g)) [
  | inl unknown ↦ rw unknown (tt, fits_capacity-HasRoom g loads path (ground (arith, unknown, e)))
  | inr (x, there) ↦
      rw there
        (ground (arith, there, e), fits_capacity-HasRoom g loads path (ground (arith, there, e)))
]

is_cheaper-IsBelow : (new : ℕ) (old : Option ℕ) → is_cheaper new old ≡ true → IsBelow new old
unfolding is_cheaper
is_cheaper-IsBelow new none e = tt
is_cheaper-IsBelow new (some old) e = ground arith

-- How often a path goes along an edge.
abbrev pub uses : String → List PathStep → ℕ
uses j [] = 0
uses j ((_, none) ∷ path) = uses j path
uses j ((_, some i) ∷ path) = let rest = uses j path in if i == j then rest + 1 else rest

load_of-put :
    (j i : String) (n : ℕ) (loads : Dict String ℕ)
    → load_of (Dict.put i n loads) j ≡ (if i == j then n else load_of loads j)
unfolding load_of
load_of-put j i n loads = ground (arith, Dict.get-put i j n loads)

add_load-uses :
    (j : String) (path : List PathStep) (loads : Dict String ℕ)
    → load_of (add_load path loads) j ≡ load_of loads j + uses j path
unfolding add_load load_of
add_load-uses j [] loads = omega arith
add_load-uses j ((n, none) ∷ path) loads = add_load-uses j path loads
add_load-uses j ((n, some i) ∷ path) loads =
    add_load-uses j path (Dict.put i (load_of loads i + 1) loads) ∙ elim (Bool-cases (i == j)) [
      | inl same ↦
          let it : load_of loads i ≡ load_of loads j = ap (load_of loads) ((eq_iff i j).0 same) in
          ap (λ n. n + uses j path) (load_of-put j i (load_of loads i + 1) loads)
          ∙ rw same (omega (arith, it))
      | inr other ↦
          ap (λ n. n + uses j path) (load_of-put j i (load_of loads i + 1) loads) ∙ rw other refl
    ]

module _ {ℓ} (P : Alternative → Type ℓ) (g : MobilityGraph) (loads : Dict String ℕ) (old : Option ℕ)
    (hazard : ℕ) (force : Bool × Reason) where
  -- What holds of every alternative, and why the one that is taken is.
  choose-Taken :
      (options : List Alternative) (a : Alternative) (r : Reason)
      → All P options
      → choose g loads old hazard force options ≡ some (a, r)
      → P a
        × (fits_capacity g loads a.0 ≡ true)
        × (is_cheaper a.1 old ≡ true)
        × ((force.0
              || is_some_reason (should_reroute old a.1 hazard (force.0 && is_closure force.1)).1)
            ≡ true)
  unfolding choose
  choose-Taken [] a r all e = absurd (ground arith)
  choose-Taken (b ∷ rest) a r all e =
      elim (Bool-cases (qualifies g loads old hazard force b rest)) [
        | inl taken ↦
            let is_a : b ≡ a =
              choice_injective (sym (choose-taken g loads old hazard force b rest taken) ∙ e) in
            subst
              (λ x.
                P x
                × (fits_capacity g loads x.0 ≡ true)
                × (is_cheaper x.1 old ≡ true)
                × ((force.0
                      || is_some_reason
                          (should_reroute old x.1 hazard (force.0 && is_closure force.1)).1)
                    ≡ true))
              is_a (all.0, ground arith, ground arith, ground arith)
        | inr skipped ↦
            choose-Taken rest a r all.1
              (sym (choose-skipped g loads old hazard force b rest skipped) ∙ e)
      ]

-- What a planned assignment, with the loads after it, is to the vehicle's path and the loads before.
abbrev pub Moves :
    HeapOps
    → (Edge → ℕ → ℕ)
    → (String → ℕ)
    → ℕ
    → MobilityGraph
    → Dict String ℕ
    → String
    → String
    → List PathStep
    → VehicleAssignment × Dict String ℕ
    → Type 0
Moves ops cost h fuel g loads origin destination old_path (a, loads') =
    let old = path_cost cost g loads old_path in
    (same_path a.new_path old_path ≡ false)
    × ((c : ℕ) × (a.new_cost ≡ some c)
        × IsFound ops cost h fuel g loads origin destination (a.new_path, c)
        × IsBelow c old
        × (Troubled g old_path ⊎ Saves old c))
    × HasRoom g loads a.new_path
    × ((j : String) → load_of loads' j ≡ load_of loads j + uses j a.new_path)

module _ (ops : HeapOps) (cost : Edge → ℕ → ℕ) (h : String → ℕ) (fuel : ℕ) (g : MobilityGraph) where
  -- A vehicle that is moved gets another path than its own. The search returns that path at its cost, under
  -- the loads or with one edge saturated. It costs less than the vehicle's own path; and that path has an
  -- edge that is closed or whose hazard is critical, or the move saves a fifth of its cost. Each edge of the
  -- new path has at most three quarters of its capacity on it, and gets as much load as the path goes along
  -- it, and no other edge does. A vehicle that is not moved keeps its path, and the loads stay.
  pub plan_vehicle-Decides :
      (vehicle_id origin destination : String) (old_path : List PathStep) (loads : Dict String ℕ)
      → let planned = plan_vehicle ops cost h fuel g vehicle_id origin destination old_path loads in
        ((planned.0.triggered ≡ true)
          × Moves ops cost h fuel g loads origin destination old_path planned)
        ⊎ ((planned.0.triggered ≡ false) × (planned.0.new_path ≡ old_path) × (planned.1 ≡ loads))
  unfolding plan_vehicle
  plan_vehicle-Decides vehicle_id origin destination old_path loads =
      let old = path_cost cost g loads old_path in
      let force = check_trigger g old_path in
      let hazard = max_hazard g old_path in
      let options = alternatives ops cost h fuel g loads origin destination in
      elim (Option-cases (choose g loads old hazard force options)) [
        | inl e ↦ rw (e, plan_vehicle) (inr (refl, refl, refl))
        | inr ((a, r), e) ↦
            let (sought, fits, cheap, cause) =
              choose-Taken (IsFound ops cost h fuel g loads origin destination) g loads old hazard
                force options a r (alternatives-IsFound ops cost h fuel g loads origin destination)
                e in
            elim (Bool-cases (same_path a.0 old_path)) [
              | inl same ↦ rw (e, same, plan_vehicle) (inr (refl, refl, refl))
              | inr other ↦
                  rw (e, other, plan_vehicle)
                    (inl (
                      refl,
                      (
                        other,
                        (
                          a.1,
                          refl,
                          sought,
                          is_cheaper-IsBelow a.1 old cheap,
                          why g old_path old a.1 cause,
                        ),
                        fits_capacity-HasRoom g loads a.0 fits,
                        λ j. add_load-uses j a.0 loads,
                      ),
                    ))
            ]
      ]
