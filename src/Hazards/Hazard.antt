-- ===== src/Hazards/Hazard.antt =====
-- packages/schemas/marga_schemas/hazard.py. Floats and positions are the arguments `F` and `Point`;
-- identifiers are numbers and times are microseconds.
use marga.Prelude.{ℕ, String, Option, List}

pub data HazardType : Type 0 where
  pothole bump debris flood landslide animal stalled_vehicle construction : HazardType
  lane_closure accident low_visibility other : HazardType

pub data HazardState : Type 0 where
  candidate verified stale expired : HazardState

pub record HazardObservation (F Point : Type 0) : Type 0 where
  pub hazard_type : HazardType
  pub position : Point
  pub observed_at : ℕ
  pub source_id : String
  pub detector_confidence : F
  pub severity_hint : F
  pub road_segment_id : Option String

pub record Hazard (F Point : Type 0) : Type 0 where
  pub hazard_id : ℕ
  pub hazard_type : HazardType
  pub position : Point
  pub severity : F
  pub confidence : F
  pub first_seen : ℕ
  pub last_seen : ℕ
  pub ttl_s : ℕ
  pub source_ids : List String
  pub evidence_count : ℕ
  pub state : HazardState
  pub road_segment_id : Option String
  pub contradiction_count : ℕ
