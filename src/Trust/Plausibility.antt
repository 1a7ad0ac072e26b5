-- ===== src/Trust/Plausibility.antt =====
-- services/trust/marga_trust/plausibility.py, `PlausibilityChecker`. Floats are an argument, `Floats`, with
-- the operations that the source applies to them; `distance` is its `_haversine_m`. Times are
-- microseconds, all aware of their zone.
pub mod Order
use marga.Prelude.{
  ℕ, ◌-◌, ◌*◌, String, Bool, true, false, not, ◌&&◌, Option, none, some, List, [], ◌∷◌, ◌++◌,
  if◌then◌else◌, ltb, nat_eqb, ◌==◌, string_eq,
}
use marga.Prelude.Dict
use marga.Prelude.Dict.{Dict}

-- The floats of the language. `tenths` are the literals.
pub record Floats : Type 1 where
  pub F : Type 0
  pub tenths : ℕ → F
  pub mul : F → F → F
  pub div : F → F → F
  pub max_of : F → F → F
  pub difference : F → F → F
  pub less : F → F → Bool
  pub at_most : F → F → Bool
  pub seconds : ℕ → F
  pub round_4 : F → F
  pub distance : F → F → F → F → F

-- packages/schemas/marga_schemas/common.py
pub data ActorType : Type 0 where
  pedestrian animal bike auto car bus truck ambulance other : ActorType

-- `_MAX_SPEED`, in metres a second.
unfoldable pub max_speed : ActorType → ℕ
max_speed pedestrian = 12
max_speed animal = 25
max_speed bike = 30
max_speed auto = 30
max_speed car = 70
max_speed bus = 40
max_speed truck = 35
max_speed ambulance = 55
max_speed other = 70

-- `_MAX_ACCEL`
unfoldable pub max_accel : ActorType → ℕ
max_accel pedestrian = 5
max_accel animal = 15
max_accel bike = 8
max_accel auto = 6
max_accel car = 15
max_accel bus = 5
max_accel truck = 4
max_accel ambulance = 12
max_accel other = 15

pub data Anomaly : Type 0 where
  impossible_speed negative_speed backwards_timestamp teleportation implausible_jump : Anomaly
  impossible_acceleration segment_discontinuity : Anomaly

module _ (fl : Floats) where
  open fl use {F, tenths, mul, div, max_of, difference, less, seconds, round_4, distance}

  -- `_ActorSnapshot`
  pub record ActorSnapshot : Type 0 where
    pub lat : F
    pub lon : F
    pub speed_mps : F
    pub timestamp : ℕ
    pub road_segment_id : Option String

  pub record PlausibilityChecker : Type 0 where
    pub snapshots : Dict String ActorSnapshot
    pub teleport_threshold_m : F

  -- One observation of an actor.
  pub record Motion : Type 0 where
    pub actor_id : String
    pub lat : F
    pub lon : F
    pub speed_mps : F
    pub timestamp : ℕ
    pub actor_type : ActorType
    pub road_segment_id : Option String

  -- A score with the anomalies found so far.
  abbrev pub Verdict : Type 0
  Verdict = F × List Anomaly

  abbrev pub zero_score : F
  zero_score = tenths 0

  abbrev scaled : F → Anomaly → Verdict → Verdict
  scaled factor anomaly (score, found) = (mul score factor, found ++ anomaly ∷ [])

  abbrev penalised : F → Anomaly → Verdict → Verdict
  penalised ratio anomaly v = scaled (max_of ratio (tenths 1)) anomaly v

  abbrev whole : ℕ → F
  whole n = tenths (n * 10)

  -- What the speed alone tells.
  unfoldable pub speed_sanity : Motion → Verdict → Verdict
  unfolding max_speed
  speed_sanity m v =
      let top : F = whole (max_speed m.actor_type) in
      let ratio : F = if less zero_score m.speed_mps then div top m.speed_mps else zero_score in
      let v' : Verdict = if less top m.speed_mps then penalised ratio impossible_speed v else v in
      if less m.speed_mps zero_score then scaled zero_score negative_speed v' else v'

  -- The distance covered since the last observation.
  unfoldable pub jump_check : F → Motion → F → F → Verdict → Verdict
  unfolding max_speed
  jump_check threshold m dist dt v =
      let top : F = whole (max_speed m.actor_type) in
      if less threshold dist
      then scaled zero_score teleportation v
      else if less (mul top (tenths 15)) (div dist dt)
      then penalised (div top (div dist dt)) implausible_jump v
      else v

  unfoldable pub acceleration_check : ActorSnapshot → Motion → F → Verdict → Verdict
  unfolding max_accel
  acceleration_check prev m dt v =
      let top : F = whole (max_accel m.actor_type) in
      let accel : F = div (difference m.speed_mps prev.speed_mps) dt in
      if less (mul top (whole 2)) accel
      then penalised (div top accel) impossible_acceleration v
      else v

  -- Two segments that are both known and differ.
  abbrev other_segment : Option String → Option String → Bool
  other_segment (some a) (some b) = not (a == b)
  other_segment _ _ = false

  unfoldable pub segment_check : ActorSnapshot → Motion → F → ℕ → Verdict → Verdict
  segment_check prev m dist dt v =
      if other_segment m.road_segment_id prev.road_segment_id
        && ltb dt 1_000_000
        && less (whole 500) dist
      then scaled (tenths 5) segment_discontinuity v
      else v

  -- The comparison with the last observation, at an earlier time.
  unfoldable pub motion_check : F → ActorSnapshot → Motion → ℕ → Verdict → Verdict
  unfolding jump_check acceleration_check segment_check
  motion_check threshold prev m dt v =
      let dist : F = distance prev.lat prev.lon m.lat m.lon in
      segment_check prev m dist dt
        (acceleration_check prev m (seconds dt) (jump_check threshold m dist (seconds dt) v))

  -- The part of `check` under the lock; none where the time runs back.
  unfoldable pub history_check : F → Option ActorSnapshot → Motion → Verdict → Option Verdict
  unfolding motion_check
  history_check threshold none m v = some v
  history_check threshold (some prev) m v =
      if ltb m.timestamp prev.timestamp
      then none
      else if ltb prev.timestamp m.timestamp
      then some (motion_check threshold prev m (m.timestamp - prev.timestamp) v)
      else some v

  abbrev pub snapshot_of : Motion → ActorSnapshot
  snapshot_of m = record {
    lat = m.lat;
    lon = m.lon;
    speed_mps = m.speed_mps;
    timestamp = m.timestamp;
    road_segment_id = m.road_segment_id;
  }

  unfoldable pub check : Motion → PlausibilityChecker → Verdict × PlausibilityChecker
  unfolding speed_sanity history_check
  check m c =
      let v = speed_sanity m (tenths 10, []) in
      elim (history_check c.teleport_threshold_m (Dict.get m.actor_id c.snapshots) m v) [
        | none ↦ (scaled zero_score backwards_timestamp v, c)
        | some (score, found) ↦ (
          (round_4 score, found),
          record c { snapshots = Dict.put m.actor_id (snapshot_of m) c.snapshots },
        )
      ]

  -- `clear`, of one actor or of all.
  unfoldable pub clear : Option String → PlausibilityChecker → PlausibilityChecker
  clear none c = record c { snapshots = [] }
  clear (some actor_id) c = record c { snapshots = Dict.pop actor_id c.snapshots }
