-- ===== src/Hazards/Observed.antt =====
-- services/hazards/marga_hazards/fusion.py: what it tests of a hazard and an observation.
use marga.Prelude.{
  ℕ, String, Bool, true, false, not, ◌||◌, Option, none, some, List, [], ◌∷◌, ◌++◌, if◌then◌else◌,
  ◌==◌, string_eq, nat_eq,
}
use marga.Hazards.Hazard.{
  HazardType, pothole, bump, debris, flood, landslide, animal, stalled_vehicle, construction,
  lane_closure, accident, low_visibility, other, HazardState, candidate,
}

-- Python's `==` on the enumeration, by the place of a type in it.
abbrev pub type_number : HazardType → ℕ
type_number pothole = 0
type_number bump = 1
type_number debris = 2
type_number flood = 3
type_number landslide = 4
type_number animal = 5
type_number stalled_vehicle = 6
type_number construction = 7
type_number lane_closure = 8
type_number accident = 9
type_number low_visibility = 10
type_number other = 11

abbrev pub same_type : HazardType → HazardType → Bool
same_type a b = type_number a == type_number b

-- The pair of types in `_COMPAT`.
abbrev pub is_bump_pair : HazardType → HazardType → Bool
is_bump_pair pothole bump = true
is_bump_pair bump pothole = true
is_bump_pair _ _ = false

abbrev pub has_source : String → List String → Bool
has_source s [] = false
has_source s (x ∷ xs) = let rest = has_source s xs in x == s || rest

-- Two road segments that are both known and differ.
abbrev pub other_segment : Option String → Option String → Bool
other_segment (some a) (some b) = not (a == b)
other_segment _ _ = false

abbrev pub first_known : Option String → Option String → Option String
first_known none b = b
first_known (some a) b = some a

abbrev pub is_candidate : HazardState → Bool
is_candidate candidate = true
is_candidate _ = false

abbrev pub sources_with : String → List String → List String
sources_with s sources = if has_source s sources then sources else sources ++ s ∷ []
