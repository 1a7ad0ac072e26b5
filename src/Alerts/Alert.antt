-- ===== src/Alerts/Alert.antt =====
-- packages/schemas/marga_schemas/alert.py: alerts. Identifiers (UUIDs) are numbers, times are
-- microseconds, and coordinates are whole numbers of a small unit from -180 degrees. The fields that
-- no modelled code reads are left out.
use marga.Prelude.{ℕ, String, Bool, true, false, Option, List, ◌≡◌, ◌↔◌, arith}
use marga.Prelude.Dict.{Dict}

abbrev pub second : ℕ
second = 1_000_000

pub data AlertPriority : Type 0 where
  critical high medium low info : AlertPriority

pub data AlertState : Type 0 where
  active acknowledged resolved expired suppressed : AlertState

abbrev pub same_state : AlertState → AlertState → Bool
same_state active active = true
same_state acknowledged acknowledged = true
same_state resolved resolved = true
same_state expired expired = true
same_state suppressed suppressed = true
same_state _ _ = false

pub same_state_iff : (s t : AlertState) → (same_state s t ≡ true) ↔ (s ≡ t)
same_state_iff active t = ground arith
same_state_iff s t = ground arith

abbrev pub same_priority : AlertPriority → AlertPriority → Bool
same_priority critical critical = true
same_priority high high = true
same_priority medium medium = true
same_priority low low = true
same_priority info info = true
same_priority _ _ = false

pub record GeoPoint : Type 0 where
  pub lat : ℕ
  pub lon : ℕ

pub record Alert : Type 0 where
  pub alert_id : ℕ
  pub alert_type : String
  pub priority : AlertPriority
  pub state : AlertState
  pub position : Option GeoPoint
  pub affected_actor_ids : List String
  pub created_at : ℕ
  pub updated_at : ℕ
  pub expires_at : Option ℕ
  pub ttl_s : Option ℕ
  pub machine_reasoning : Dict String String
