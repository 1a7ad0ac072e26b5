-- ===== src/Hazards/Fusion.antt =====
-- services/hazards/marga_hazards/fusion.py, `HazardFusionEngine`. The identifier of a new hazard is an
-- argument. The history of observations, which no operation reads, is left out.
pub mod Agreement
pub mod Sources
pub mod Evidence
pub mod Swept
mod Tests
use marga.Prelude.{
  ℕ, suc, ◌+◌, ◌-◌, ◌*◌, String, Bool, true, false, not, ◌&&◌, ◌||◌, Option, none, some, List, [],
  ◌∷◌, ◌++◌, if◌then◌else◌, ltb, leb, max, length, ◌==◌, string_eq, nat_eq,
}
use marga.Prelude.Dict
use marga.Prelude.Dict.{Dict}
use marga.Hazards.Hazard.{
  HazardType, pothole, bump, debris, flood, landslide, animal, stalled_vehicle, construction,
  lane_closure, accident, low_visibility, other, HazardState, candidate, verified, stale, expired,
  Hazard, HazardObservation,
}
use marga.Hazards.Observed.{
  type_number, same_type, is_bump_pair, has_source, other_segment, first_known, is_candidate,
  sources_with,
}
use marga.Hazards.Spatial.{SpatialIndex, insert, query_nearby}
use marga.Hazards.Lifecycle.{Measures, Hazards, second, default_ttl, retire}

module _ (ms : Measures) where
  open ms use {
    F, Point, hundredths, add, sub, mul, div, max_of, min_of, less, at_most, equal, of_seconds,
    of_count, haversine_m, blend, cell_of, cell_span,
  }

  pub record Tunables : Type 0 where
    pub association_radius_m : F
    pub min_association_score : F
    pub verification_source_count : ℕ

  abbrev pub Observation : Type 0
  Observation = HazardObservation F Point

  unfoldable pub type_compatibility : HazardType → HazardType → F
  type_compatibility a b =
      if same_type a b
      then hundredths 100
      else if is_bump_pair a b
      then hundredths 60
      else hundredths 0

  -- `_time_gap_factor`, of a gap in microseconds; MAX_TEMPORAL_GAP_S is two hours.
  unfoldable pub time_gap_factor : ℕ → F
  time_gap_factor gap =
      if leb gap 0
      then hundredths 100
      else if leb (7_200 * second) gap
      then hundredths 0
      else sub (hundredths 100) (div (of_seconds gap) (of_seconds (7_200 * second)))

  abbrev pub gap_of : ℕ → ℕ → ℕ
  gap_of a b = (a - b) + (b - a)

  -- `_association_score`
  unfoldable pub association_score : Tunables → Hazard F Point → Observation → F
  unfolding type_compatibility time_gap_factor
  association_score t h o =
      let compat : F = type_compatibility h.hazard_type o.hazard_type in
      let dist : F = haversine_m h.position o.position in
      let independence : F =
        if has_source o.source_id h.source_ids then hundredths 70 else hundredths 100 in
      if equal compat (hundredths 0)
      then hundredths 0
      else if other_segment h.road_segment_id o.road_segment_id
      then hundredths 0
      else if less t.association_radius_m dist
      then hundredths 0
      else mul
          (mul (mul (sub (hundredths 100) (div dist t.association_radius_m)) compat)
            (time_gap_factor (gap_of o.observed_at h.last_seen)))
          independence

  -- What a query tests of a hazard of the store: its distance, and its type where one is asked for.
  abbrev pub is_type : Option HazardType → HazardType → Bool
  is_type none t = true
  is_type (some a) t = same_type t a

  abbrev pub passes : Point → F → Option HazardType → Option (Hazard F Point) → Bool
  passes p radius t none = false
  passes p radius t (some h) = is_type t h.hazard_type && at_most (haversine_m p h.position) radius

  unfoldable pub nearby : Point → F → Option HazardType → Hazards ms → List ℕ
  nearby p radius t s =
      query_nearby (cell_of p) (max 1 (cell_span radius))
        (λ i. passes p radius t (Dict.get i s.active)) s.spatial_index

  -- The best hazard so far, with its score.
  abbrev pub Best : Type 0
  Best = Option ℕ × F

  unfoldable pub better : Tunables → Observation → ℕ → Option (Hazard F Point) → Best → Best
  better t o i none best = best
  better t o i (some h) best =
      if less best.1 (association_score t h o) then (some i, association_score t h o) else best

  -- The loop of `_find_best_match`
  unfoldable pub best_of : Tunables → Observation → Dict ℕ (Hazard F Point) → List ℕ → Best → Best
  unfolding better
  best_of t o active [] best = best
  best_of t o active (i ∷ is) best = best_of t o active is (better t o i (Dict.get i active) best)

  unfoldable pub find_best_match : Tunables → Observation → Hazards ms → Best
  find_best_match t o s =
      best_of t o s.active (nearby o.position t.association_radius_m none s) (none, hundredths 0)

  -- The hazard goes to the store, and to the cell of its position.
  unfoldable pub file : ℕ → Hazard F Point → Hazards ms → Hazards ms
  file i h s = record s {
    active = Dict.put i h s.active;
    spatial_index = insert i (cell_of h.position) s.spatial_index;
  }

  unfoldable pub new_hazard : ℕ → Observation → Hazard F Point
  unfolding default_ttl
  new_hazard i o = record {
    hazard_id = i;
    hazard_type = o.hazard_type;
    position = o.position;
    severity = o.severity_hint;
    confidence = mul o.detector_confidence (hundredths 50);
    first_seen = o.observed_at;
    last_seen = o.observed_at;
    ttl_s = default_ttl o.hazard_type;
    source_ids = o.source_id ∷ [];
    evidence_count = 1;
    state = candidate;
    road_segment_id = o.road_segment_id;
    contradiction_count = 0;
  }

  -- `_compute_confidence`
  unfoldable pub compute_confidence : F → F → Bool → F
  compute_confidence base detector is_new_source =
      let independent : F =
        sub (hundredths 100)
          (mul (sub (hundredths 100) base) (sub (hundredths 100) (mul detector (hundredths 50)))) in
      let repeated : F = add base (mul (mul detector (hundredths 5)) (sub (hundredths 100) base)) in
      min_of (hundredths 100)
        (max_of (hundredths 0) (if is_new_source then independent else repeated))

  unfoldable pub promoted : Tunables → HazardState → List String → HazardState
  promoted t state sources =
      if is_candidate state && leb t.verification_source_count (length sources)
      then verified
      else state

  -- `_merge_observation`; `weight` is 1 / (n + 1).
  unfoldable pub merged : Tunables → Hazard F Point → Observation → Hazard F Point
  unfolding compute_confidence promoted
  merged t h o =
      let weight : F = div (hundredths 100) (of_count (suc h.evidence_count)) in
      let sources = sources_with o.source_id h.source_ids in
      record h {
        position = blend weight h.position o.position;
        last_seen = if ltb h.last_seen o.observed_at then o.observed_at else h.last_seen;
        source_ids = sources;
        evidence_count = h.evidence_count + 1;
        confidence =
            compute_confidence h.confidence o.detector_confidence
              (not (has_source o.source_id h.source_ids));
        severity = add (mul h.severity (sub (hundredths 100) weight)) (mul o.severity_hint weight);
        road_segment_id = first_known h.road_segment_id o.road_segment_id;
        state = promoted t h.state sources;
      }

  abbrev pub absorb :
      Tunables → ℕ → Observation → Option ℕ → Option (Hazard F Point) → Hazards ms → Hazards ms
  absorb t new o (some i) (some h) s = file i (merged t h o) s
  absorb t new o _ _ s = file new (new_hazard new o) s

  abbrev pub looked_up : Option ℕ → Hazards ms → Option (Hazard F Point)
  looked_up none s = none
  looked_up (some i) s = Dict.get i s.active

  -- `ingest_observation`
  unfoldable pub ingest_observation : Tunables → ℕ → Observation → Hazards ms → Hazards ms
  ingest_observation t new o s =
      let best = find_best_match t o s in
      if at_most t.min_association_score best.1
      then absorb t new o best.0 (looked_up best.0 s) s
      else absorb t new o none none s

  -- A contradicted hazard, before its state is looked at.
  unfoldable pub contradicted : Hazard F Point → Hazard F Point
  contradicted h = record h {
    contradiction_count = h.contradiction_count + 1;
    confidence = max_of (hundredths 0) (sub h.confidence (mul (hundredths 20) h.confidence));
  }

  -- One round of `apply_negative_evidence`.
  unfoldable pub contradict : ℕ → Option (Hazard F Point) → Hazards ms → Hazards ms
  contradict i none s = s
  contradict i (some h) s =
      let h' = contradicted h in
      if less h'.confidence (hundredths 10)
      then retire ms i (record s { active = Dict.put i (record h' { state = expired }) s.active })
      else if less h'.confidence (hundredths 30)
      then file i (record h' { state = stale }) s
      else file i h' s

  unfoldable pub contradict_all : List ℕ → Hazards ms → Hazards ms
  contradict_all [] s = s
  contradict_all (i ∷ is) s = contradict_all is (contradict i (Dict.get i s.active) s)

  -- `apply_negative_evidence`, within a radius that is given or else the association radius.
  unfoldable pub apply_negative_evidence : F → Point → HazardType → Hazards ms → Hazards ms
  apply_negative_evidence radius p t s = contradict_all (nearby p radius (some t) s) s
