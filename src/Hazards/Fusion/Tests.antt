-- ===== src/Hazards/Fusion/Tests.antt =====
-- Runs of the hazard engine, and its theorems at concrete inputs.
use mathlib.Core.Option
use marga.Prelude.{
  ℕ, ◌+◌, ◌-◌, ◌*◌, ◌/◌, min, max, ◌≡◌, refl, ◌↔◌, String, true, not, Option, none, some, [], ◌∷◌,
  arith, if◌then◌else◌, leb, ltb, nat_eqb, nat_eq, string_eq, pair_eq, keep,
}
use marga.Prelude.Dict
use marga.Prelude.Tidy
use marga.Hazards.Hazard.{Hazard, HazardObservation, pothole, bump, candidate, verified, stale}
use marga.Hazards.Spatial.{
  elem, bucket, remove_hazard, insert, query_nearby, visit, cells_around, block, row, range_from,
}
use marga.Hazards.Spatial.Query.{IsNear}
use marga.Hazards.Lifecycle.{
  Measures, Hazards, Lifecycle, second, swept, sweep, is_gone, decayed, new_state, is_changed,
  get_ttl, sweep_all, retire_all, retire, default_ttl,
}
use marga.Hazards.Fusion.{
  Tunables, file, new_hazard, merged, promoted, compute_confidence, ingest_observation,
  find_best_match, nearby, best_of, better, association_score, type_compatibility, time_gap_factor,
  passes,
}
use marga.Hazards.Fusion.Agreement.{Agree, ingests, operate, operate-Agree, file-Agree, nearby_iff}
use marga.Hazards.Fusion.Evidence.{AllGrounded, operate-Grounded}
use marga.Hazards.Fusion.Swept.{sweep_lem, decays_overlap, leaves, or_else}

-- Hundredths as floats, and a plane as the earth.
abbrev plane : Measures
plane = record {
  F = ℕ;
  Point = ℕ × ℕ;
  hundredths = λ n. n;
  add = λ a b. a + b;
  sub = λ a b. a - b;
  mul = λ a b. a * b / 100;
  div = λ a b. a * 100 / b;
  max_of = max;
  min_of = min;
  less = ltb;
  at_most = leb;
  equal = nat_eqb;
  differs = λ a b. not (nat_eqb a b);
  of_seconds = λ t. t * 100 / second;
  of_count = λ n. n * 100;
  half_power = λ t h. 100 / (1 + t / h);
  haversine_m = λ p q. (p.0 - q.0) + (q.0 - p.0) + (p.1 - q.1) + (q.1 - p.1);
  blend = λ w p q. p;
  cell_of = λ p. (p.0 / 10 + 100, p.1 / 10 + 100);
  cell_span = λ r. 1;
}

abbrev empty : Hazards plane
empty = record {
  active = [];
  spatial_index = record { grid = []; id_to_key = [] };
  expired_archive = [];
}

abbrev tunables : Tunables plane
tunables = record {
  association_radius_m = 50;
  min_association_score = 30;
  verification_source_count = 2;
}

abbrev seen_by : String → ℕ → HazardObservation ℕ (ℕ × ℕ)
seen_by source t = record {
  hazard_type = pothole;
  position = (5, 5);
  observed_at = t * second;
  source_id = source;
  detector_confidence = 80;
  severity_hint = 50;
  road_segment_id = none;
}

abbrev lifecycle : Lifecycle plane
lifecycle = record {
  ttl_overrides = λ t. none;
  decay_half_life = 3_600 * second;
  stale_threshold = 30;
  expire_threshold = 10;
}

empty-Agree : Agree plane empty
unfolding elem bucket Dict.get Tidy.Tidy
empty-Agree = record { index = record { agrees = λ i k. refl }; tidy = tt; placed = λ i. refl }

abbrev one_hazard : Hazards plane
one_hazard = operate plane (ingests tunables 7 (seen_by "car" 0)) empty

operate-Agree_example : Agree plane one_hazard
operate-Agree_example = operate-Agree plane (ingests tunables 7 (seen_by "car" 0)) empty-Agree

operate-Grounded_example : AllGrounded plane 2 one_hazard
unfolding Dict.get
operate-Grounded_example =
    operate-Grounded plane 2 (ingests tunables 7 (seen_by "car" 0)) empty refl
      (λ i h e. absurd (ground (arith, e)))

-- Two sources make the hazard verified.
abbrev state_of : Option (Hazard ℕ (ℕ × ℕ)) → Option marga.Hazards.Hazard.HazardState
state_of none = none
state_of (some h) = some h.state

verified_run :
    state_of (Dict.get 7 (operate plane (ingests tunables 8 (seen_by "bus" 9)) one_hazard).active)
    ≡ some verified
unfolding operate ingest_observation find_best_match nearby best_of better association_score
    type_compatibility time_gap_factor file new_hazard merged promoted compute_confidence
    query_nearby visit cells_around block row range_from bucket insert remove_hazard elem keep
    Dict.get Dict.put Dict.pop
verified_run = refl

one_hazard-Agree : Agree plane one_hazard
one_hazard-Agree = operate-Agree plane (ingests tunables 7 (seen_by "car" 0)) empty-Agree

nearby_iff_example : (elem 7 (nearby plane (5, 6) 50 none one_hazard) ≡ true) ↔ (
    (h : Hazard ℕ (ℕ × ℕ)) × (Dict.get 7 one_hazard.active ≡ some h)
    × (passes plane (5, 6) 50 none (some h) ≡ true)
    × IsNear (100, 100) 1 (plane.cell_of h.position))
nearby_iff_example =
    nearby_iff plane (5, 6) 50 none one_hazard 7 one_hazard-Agree (omega arith) (omega arith)

sweep_lem_example :
    let gone = leaves plane (90_000 * second) lifecycle (Dict.get 7 one_hazard.active) in
    let old = Option.map (swept plane (90_000 * second) lifecycle) (Dict.get 7 one_hazard.active) in
    let s = sweep plane (90_000 * second) lifecycle one_hazard in
    (Dict.get 7 s.active ≡ (if gone then none else old))
    × (Dict.get 7 s.expired_archive ≡ (
        if gone
        then or_else plane old (Dict.get 7 one_hazard.expired_archive)
        else Dict.get 7 one_hazard.expired_archive))
sweep_lem_example = sweep_lem plane (90_000 * second) lifecycle one_hazard 7 one_hazard-Agree

gone_run : leaves plane (90_000 * second) lifecycle (Dict.get 7 one_hazard.active) ≡ true
unfolding operate ingest_observation find_best_match nearby best_of better association_score
    type_compatibility time_gap_factor file new_hazard merged promoted compute_confidence
    query_nearby visit cells_around block row range_from bucket insert remove_hazard elem keep
    Dict.get Dict.put Dict.pop is_gone new_state decayed get_ttl
gone_run = refl

abbrev strong : Hazard ℕ (ℕ × ℕ)
strong = record {
  hazard_id = 7;
  hazard_type = bump;
  position = (5, 5);
  severity = 50;
  confidence = 80;
  first_seen = 0;
  last_seen = 0;
  ttl_s = 604_800;
  source_ids = "car" ∷ "bus" ∷ [];
  evidence_count = 2;
  state = verified;
  road_segment_id = none;
  contradiction_count = 0;
}

-- One hazard of two sources.
abbrev strong_only : Hazards plane
strong_only = file plane 7 strong empty

strong_only-Agree : Agree plane strong_only
strong_only-Agree = file-Agree plane 7 strong refl empty-Agree

-- After an hour and after another one.
abbrev one_hour : ℕ
one_hour = 3_600 * second

abbrev two_hours : ℕ
two_hours = 7_200 * second

abbrev faded : Hazard ℕ (ℕ × ℕ)
faded = record strong { confidence = 13; state = stale }

faded_run :
    Dict.get 7 (sweep plane two_hours lifecycle (sweep plane one_hour lifecycle strong_only)).active
    ≡ some faded
unfolding file insert remove_hazard elem bucket swept sweep sweep_all retire_all retire is_gone
    is_changed new_state decayed get_ttl default_ttl Dict.get Dict.put Dict.pop
faded_run = refl

decays_overlap_example : 13 ≡ 80 * 50 / 100 * 33 / 100
unfolding file Dict.get Dict.put
decays_overlap_example =
    decays_overlap plane one_hour two_hours lifecycle strong_only 7 {h = strong} {k = faded}
      strong_only-Agree refl refl (omega arith) (omega arith) (omega arith) faded_run refl refl
