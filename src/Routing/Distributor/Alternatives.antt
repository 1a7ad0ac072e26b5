-- ===== src/Routing/Distributor/Alternatives.antt =====
-- Where the alternatives of services/routing/marga_routing/distributor.py come from.
use marga.Prelude.{
  All, All-append, ◌++◌, not, none, string_eq, ℕ, ◌≡◌, refl, ◌⊎◌, inl, inr, String, Bool, true,
  false, ◌&&◌, some, List, [], ◌∷◌, arith, if◌then◌else◌,
}
use marga.Prelude.Dict.{Dict}
use marga.Routing.Graph.{MobilityGraph, Edge}
use marga.Routing.Pathfinder.{PathStep, HeapOps, Result, found, no_route, out_of_fuel, find_path}
use marga.Routing.Distributor.{
  route, saturate, diversify, is_nonempty, is_listed, same_path, Alternative, alternatives,
}

Result-cases :
    (r : Result)
    → ((path : List PathStep) × (total : ℕ) × (r ≡ found path total))
      ⊎ ((r ≡ no_route) ⊎ (r ≡ out_of_fuel))
Result-cases (found path total) = inl (path, total, refl)
Result-cases no_route = inr (inl refl)
Result-cases out_of_fuel = inr (inr refl)

module _ (ops : HeapOps) (cost : Edge → ℕ → ℕ) (h : String → ℕ) (fuel : ℕ) (g : MobilityGraph)
    (loads : Dict String ℕ) (origin destination : String) where
  -- The search returns this route and cost, under the loads or with one edge saturated.
  abbrev pub IsFound : Alternative → Type 0
  IsFound a =
      (ls : Dict String ℕ) × ((ls ≡ loads)
        ⊎ ((i : String) × (ls ≡ saturate ops cost h fuel g i loads)))
      × (find_path ops cost h ls fuel g origin destination ≡ found a.0 a.1)

  route-IsFound :
      (ls : Dict String ℕ)
      → (ls ≡ loads) ⊎ ((i : String) × (ls ≡ saturate ops cost h fuel g i loads))
      → is_nonempty ops cost h fuel g (route ops cost h fuel g ls origin destination).0 ≡ true
      → IsFound (route ops cost h fuel g ls origin destination)
  unfolding route
  route-IsFound ls from full =
      elim (Result-cases (find_path ops cost h ls fuel g origin destination)) [
        | inl (path, total, e) ↦ (ls, from, rw (e, route) refl)
        | inr (inl e) ↦ absurd (ground (arith, e, full))
        | inr (inr e) ↦ absurd (ground (arith, e, full))
      ]

  added :
      (full other new : Bool) (so_far : List Alternative) (a : Alternative)
      → (full ≡ true → IsFound a)
      → All IsFound so_far
      → All IsFound (if full && other && new then so_far ++ a ∷ [] else so_far)
  added true true true so_far a h all = All-append IsFound so_far (a ∷ []) all (h refl, tt)
  added true true false so_far a h all = all
  added true false new so_far a h all = all
  added false other new so_far a h all = all

  first :
      (full : Bool) (a : Alternative)
      → (full ≡ true → IsFound a)
      → All IsFound (if full then a ∷ [] else [])
  first false a h = tt
  first true a h = (h refl, tt)

  All-if :
      (b : Bool) (xs ys : List Alternative)
      → All IsFound xs
      → All IsFound ys
      → All IsFound (if b then xs else ys)
  All-if true xs ys hx hy = hx
  All-if false xs ys hx hy = hy

  diversify-IsFound :
      (primary todo : List PathStep) (so_far : List Alternative)
      → All IsFound so_far
      → All IsFound (diversify ops cost h fuel g loads origin destination primary todo so_far)
  unfolding diversify
  diversify-IsFound primary [] so_far all = all
  diversify-IsFound primary ((n, none) ∷ todo) so_far all =
      diversify-IsFound primary todo so_far all
  diversify-IsFound primary ((n, some i) ∷ todo) so_far all =
      let a = route ops cost h fuel g (saturate ops cost h fuel g i loads) origin destination in
      let full = is_nonempty ops cost h fuel g a.0 in
      let now =
        added full (not (same_path a.0 primary)) (not (is_listed a so_far)) so_far a
          (route-IsFound (saturate ops cost h fuel g i loads) (inr (i, refl))) all in
      All-if _ _ _ now (diversify-IsFound primary todo _ now)

  pub alternatives-IsFound : All IsFound (alternatives ops cost h fuel g loads origin destination)
  unfolding alternatives
  alternatives-IsFound =
      let a = route ops cost h fuel g loads origin destination in
      diversify-IsFound a.0 a.0 _
        (first (is_nonempty ops cost h fuel g a.0) a (route-IsFound loads (inl refl)))
