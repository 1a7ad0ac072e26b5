-- ===== src/Hazards/Spatial.antt =====
-- services/hazards/marga_hazards/spatial.py, `HazardSpatialIndex`. The grid holds the identifiers of the
-- hazards, which are shared with the store. Cells are pairs of numbers, counted from a corner further out
-- than any query reaches.
pub mod Agreement
pub mod Query
use marga.Prelude.{
  ℕ, zero, suc, ◌+◌, ◌-◌, Bool, true, false, not, ◌&&◌, ◌||◌, Option, none, some, List, [], ◌∷◌,
  ◌++◌, if◌then◌else◌, nat_eqb, keep, ◌==◌, nat_eq, pair_eq, Eq,
}
use marga.Prelude.Dict
use marga.Prelude.Dict.{Dict}

abbrev pub Cell : Type 0
Cell = ℕ × ℕ

pub record SpatialIndex : Type 0 where
  pub grid : Dict Cell (List ℕ)
  pub id_to_key : Dict ℕ Cell

unfoldable pub elem : ℕ → List ℕ → Bool
elem i [] = false
elem i (j ∷ js) = nat_eqb j i || elem i js

-- `bucket[hid] = hazard`
abbrev pub add : ℕ → List ℕ → List ℕ
add i ids = if elem i ids then ids else ids ++ i ∷ []

-- `bucket.pop(hid, None)`
unfoldable pub remove : ℕ → List ℕ → List ℕ
remove i [] = []
remove i (j ∷ js) = let rest = remove i js in if nat_eqb j i then rest else j ∷ rest

-- Buckets under keys.
module _ {K : Type 0} ⦃e : Eq K⦄ where
  -- What is held under a key; a key that is not in the grid holds nothing.
  unfoldable pub bucket : K → Dict K (List ℕ) → List ℕ
  bucket k grid = elim (Dict.get k grid) [ none ↦ [] | some ids ↦ ids ]

  -- A bucket that is empty leaves the grid.
  abbrev pub store_bucket : K → List ℕ → Dict K (List ℕ) → Dict K (List ℕ)
  store_bucket k [] grid = Dict.pop k grid
  store_bucket k (j ∷ js) grid = Dict.put k (j ∷ js) grid

  abbrev pub drop_from : ℕ → K → Option (List ℕ) → Dict K (List ℕ) → Dict K (List ℕ)
  drop_from i k none grid = grid
  drop_from i k (some ids) grid = store_bucket k (remove i ids) grid

-- `remove` and `_remove_from_grid`
unfoldable pub remove_hazard : ℕ → SpatialIndex → SpatialIndex
unfolding remove
remove_hazard i ix = elim (Dict.get i ix.id_to_key) [
  | none ↦ ix
  | some k ↦ record {
    grid = drop_from i k (Dict.get k ix.grid) ix.grid;
    id_to_key = Dict.pop i ix.id_to_key;
  }
]

-- `insert` of a hazard in its cell.
unfoldable pub insert : ℕ → Cell → SpatialIndex → SpatialIndex
insert i k ix =
    let ix' = remove_hazard i ix in
    record {
      grid = Dict.put k (add i (bucket k ix'.grid)) ix'.grid;
      id_to_key = Dict.put i k ix'.id_to_key;
    }

-- `range(centre - span, centre + span + 1)`
unfoldable pub range_from : ℕ → ℕ → List ℕ
range_from a zero = []
range_from a (suc n) = a ∷ range_from (suc a) n

unfoldable pub row : ℕ → List ℕ → List Cell
row x [] = []
row x (y ∷ ys) = (x, y) ∷ row x ys

unfoldable pub block : List ℕ → List ℕ → List Cell
unfolding row
block [] ys = []
block (x ∷ xs) ys = row x ys ++ block xs ys

-- The cells that a query visits.
unfoldable pub cells_around : Cell → ℕ → List Cell
unfolding block range_from
cells_around c span =
    block (range_from (c.0 - span) (span + span + 1)) (range_from (c.1 - span) (span + span + 1))

unfoldable pub visit : List Cell → SpatialIndex → List ℕ
unfolding bucket
visit [] ix = []
visit (k ∷ ks) ix = bucket k ix.grid ++ visit ks ix

-- `query_nearby`: `passes` is the test of the type and of the distance.
unfoldable pub query_nearby : Cell → ℕ → (ℕ → Bool) → SpatialIndex → List ℕ
query_nearby centre span passes ix = keep passes (visit (cells_around centre span) ix)
