-- ===== src/Scenario/Failures.antt =====
-- services/scenario-service/app/failure_injector.py, `FailureInjector`. Uncertainties are millimetres and
-- confidences hundred-thousandths, so that the penalty, a hundredth of the uncertainty, is exact.
pub mod Worst
use marga.Prelude.{
  ℕ, ◌+◌, ◌-◌, Bool, true, false, not, ◌&&◌, ◌||◌, String, Option, none, some, List, [], ◌∷◌, ◌++◌,
  min, ltb, leb, elem, ◌==◌, string_eq, if◌then◌else◌,
}

-- `FailureType` of schemas.py
pub data FailureType : Type 0 where
  gps_degradation : FailureType
  connectivity_loss : FailureType
  rsu_failure : FailureType
  traffic_density_spike : FailureType
  weather_visibility : FailureType
  malicious_input : FailureType
  road_closure : FailureType
  road_narrowing : FailureType
  animal_crossing : FailureType
  emergency_vehicle : FailureType
  wrong_way_vehicle : FailureType
  stalled_vehicle : FailureType

-- The parameters of a failure that are given.
pub record Parameters : Type 0 where
  pub affected_actors : Option (List String)
  pub uncertainty_m : Option ℕ
  pub affected_services : Option (List String)
  pub rsu_id : Option String
  pub edge_id : Option String
  pub lanes_remaining : Option ℕ
  pub visibility_m : Option ℕ
  pub condition : Option String
  pub edge_ids : Option (List String)
  pub density_factor : Option ℕ

pub record FailureScheduleEntry : Type 0 where
  pub entry_id : String
  pub failure_type : FailureType
  pub start_sim_time_s : ℕ
  pub duration_s : Option ℕ
  pub parameters : Parameters

pub record FailureEffect : Type 0 where
  pub entry_id : String
  pub failure_type : FailureType
  pub parameters : Parameters
  pub started_at_sim_time_s : ℕ

-- `PositionEstimate`: what the injector reads of it.
pub record PositionEstimate : Type 0 where
  pub actor_id : String
  pub uncertainty_m : ℕ
  pub confidence : ℕ

abbrev pub or_default {ℓ} : {A : Type ℓ} → A → Option A → A
or_default d none = d
or_default d (some a) = a

abbrev pub is_over : ℕ → ℕ → Option ℕ → Bool
is_over now start none = false
is_over now start (some duration) = leb (start + duration) now

unfoldable pub effect_of : FailureScheduleEntry → FailureEffect
effect_of e = record {
  entry_id = e.entry_id;
  failure_type = e.failure_type;
  parameters = e.parameters;
  started_at_sim_time_s = e.start_sim_time_s;
}

unfoldable pub get_active_failures : List FailureScheduleEntry → ℕ → List FailureEffect
get_active_failures [] now = []
get_active_failures (e ∷ es) now =
    let rest = get_active_failures es now in
    if ltb now e.start_sim_time_s
    then rest
    else if is_over now e.start_sim_time_s e.duration_s
    then rest
    else effect_of e ∷ rest

abbrev pub is_gps : FailureType → Bool
is_gps gps_degradation = true
is_gps _ = false

-- Whether an effect is one on the position of an actor.
unfoldable pub degrades : String → FailureEffect → Bool
degrades actor e =
    let filter : List String = or_default ("all" ∷ []) e.parameters.affected_actors in
    is_gps e.failure_type && (elem "all" filter || elem actor filter)

abbrev pub uncertainty_of : FailureEffect → ℕ
uncertainty_of e = or_default 50_000 e.parameters.uncertainty_m

-- The confidence that a position keeps under an uncertainty.
abbrev pub new_confidence : ℕ → ℕ → ℕ
new_confidence confidence uncertainty = confidence - min 100_000 uncertainty

-- The worst uncertainty and confidence so far, and those after one more effect.
unfoldable pub worsen : ℕ → ℕ → ℕ × ℕ → ℕ × ℕ
worsen confidence uncertainty (worst, kept) =
    if ltb worst uncertainty
    then (uncertainty, min kept (new_confidence confidence uncertainty))
    else (worst, kept)

-- The loop of `apply_gps_degradation`
unfoldable pub worst_of : String → ℕ → List FailureEffect → ℕ × ℕ → ℕ × ℕ
unfolding degrades worsen
worst_of actor confidence [] w = w
worst_of actor confidence (e ∷ es) w =
    worst_of actor confidence es
      (if degrades actor e then worsen confidence (uncertainty_of e) w else w)

-- `actor_id or position.actor_id`
abbrev pub resolved : Option String → PositionEstimate → String
resolved none p = p.actor_id
resolved (some actor) p = if actor == "" then p.actor_id else actor

unfoldable pub apply_gps_degradation :
    PositionEstimate → List FailureEffect → Option String → PositionEstimate
unfolding worst_of
apply_gps_degradation p effects actor =
    let w : ℕ × ℕ =
      worst_of (resolved actor p) p.confidence effects (p.uncertainty_m, p.confidence) in
    record p { uncertainty_m = w.0; confidence = w.1 }

abbrev pub services_of : FailureEffect → List String
services_of e = elim e.failure_type [
  | FailureType.connectivity_loss ↦ or_default [] e.parameters.affected_services
  | _ ↦ []
]

-- `get_offline_services`, a set as the list of what is added to it.
unfoldable pub get_offline_services : List FailureEffect → List String
get_offline_services [] = []
get_offline_services (e ∷ es) = let rest = get_offline_services es in services_of e ++ rest

abbrev pub is_rsu : String → Option String → Bool
is_rsu rsu none = false
is_rsu rsu (some other) = other == rsu

abbrev pub fails_rsu : String → FailureEffect → Bool
fails_rsu rsu e = elim e.failure_type [
  | FailureType.rsu_failure ↦ is_rsu rsu e.parameters.rsu_id
  | _ ↦ false
]

unfoldable pub is_rsu_operational : String → List FailureEffect → Bool
is_rsu_operational rsu [] = true
is_rsu_operational rsu (e ∷ es) =
    let rest = is_rsu_operational rsu es in if fails_rsu rsu e then false else rest

-- A command to the simulation adapter, of an edge.
pub data RoadEvent : Type 0 where
  close : Option String → RoadEvent
  narrow : Option String → ℕ → RoadEvent

abbrev pub road_events : FailureEffect → List RoadEvent
road_events e = elim e.failure_type [
  | FailureType.road_closure ↦ close e.parameters.edge_id ∷ []
  | FailureType.road_narrowing ↦
      narrow e.parameters.edge_id (or_default 1 e.parameters.lanes_remaining) ∷ []
  | _ ↦ []
]

unfoldable pub get_road_events_from_failures : List FailureEffect → List RoadEvent
get_road_events_from_failures [] = []
get_road_events_from_failures (e ∷ es) =
    let rest = get_road_events_from_failures es in road_events e ++ rest

-- The worst visibility with its condition, and the densities of edges, in tenths.
pub record Environment : Type 0 where
  pub visibility : Option (ℕ × String)
  pub traffic_density_overrides : List (List String × ℕ)

abbrev pub sees_less : ℕ → Option (ℕ × String) → Bool
sees_less vis none = true
sees_less vis (some (worst, condition)) = ltb vis worst

unfoldable pub override_with : FailureEffect → Environment → Environment
override_with e env = elim e.failure_type [
  | FailureType.weather_visibility ↦
      let vis : ℕ = or_default 100_000 e.parameters.visibility_m in
      record env {
        visibility =
            if sees_less vis env.visibility
            then some (vis, or_default "fog" e.parameters.condition)
            else env.visibility;
      }
  | FailureType.traffic_density_spike ↦ record env {
    traffic_density_overrides =
        env.traffic_density_overrides
        ++ (or_default [] e.parameters.edge_ids, or_default 20 e.parameters.density_factor) ∷ [];
  }
  | _ ↦ env
]

-- The loop of `get_environment_override`
unfoldable pub override_from : Environment → List FailureEffect → Environment
override_from env [] = env
override_from env (e ∷ es) = override_from (override_with e env) es

unfoldable pub get_environment_override : List FailureEffect → Environment
get_environment_override es =
    override_from (record { visibility = none; traffic_density_overrides = [] }) es
