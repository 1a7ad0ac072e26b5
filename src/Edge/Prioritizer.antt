-- ===== src/Edge/Prioritizer.antt =====
-- services/edge_v2x/prioritizer.py, `RiskPrioritizer`: the one risk that a driver is told of. A score is
-- rounded to four places, so it is a whole number of ten-thousandths.
pub mod Choice
use marga.Prelude.{
  ℕ, ◌<◌, ◌≤◌, ◌≡◌, Bool, true, Option, none, some, List, [], ◌∷◌, ◌++◌, All, ltb, if◌then◌else◌,
}

-- `RiskType` of packages/schemas/canonical.py
pub data RiskType : Type 0 where
  collision : RiskType
  rear_end : RiskType
  head_on : RiskType
  intersection_conflict : RiskType
  blind_curve : RiskType
  blind_intersection : RiskType
  wrong_way : RiskType
  emergency_braking : RiskType
  stalled_vehicle : RiskType
  animal_crossing : RiskType
  pedestrian_conflict : RiskType
  road_hazard : RiskType
  emergency_vehicle : RiskType
  road_narrowing : RiskType

-- `RiskEvent`: what the prioritizer and the node read of it. A piece of evidence is its
-- `max_vulnerability`, where it has one.
pub record RiskEvent (F : Type 0) : Type 0 where
  pub risk_id : ℕ
  pub risk_type : RiskType
  pub affected_actor_ids : List ℕ
  pub time_to_conflict_s : Option F
  pub severity : F
  pub confidence : F
  pub risk_score : F
  pub evidence : List (Option F)

-- The floats, and `round(x, 4)` of a number from zero to one, in ten-thousandths.
pub record Floats : Type 1 where
  pub F : Type 0
  pub hundredths : ℕ → F
  pub add : F → F → F
  pub sub : F → F → F
  pub mul : F → F → F
  pub div : F → F → F
  pub max_of : F → F → F
  pub min_of : F → F → F
  pub less : F → F → Bool
  pub at_most : F → F → Bool
  pub round : F → ℕ

pub record PrioritizationFactors : Type 0 where
  pub collision_probability : ℕ
  pub ttc_urgency : ℕ
  pub uncertainty_penalty : ℕ
  pub consequence : ℕ
  pub vulnerability : ℕ
  pub composite_score : ℕ

module _ (fs : Floats) where
  open fs use {F, hundredths, add, sub, mul, div, max_of, min_of, less, at_most, round}

  pub record RiskPrioritizer : Type 0 where
    pub w_probability : F
    pub w_ttc : F
    pub w_uncertainty : F
    pub w_consequence : F
    pub w_vulnerability : F
    pub horizon_s : F

  -- `_ttc_urgency`
  unfoldable pub urgency : F → Option F → F
  urgency horizon none = hundredths 0
  urgency horizon (some ttc) =
      if at_most ttc (hundredths 0)
      then hundredths 100
      else max_of (hundredths 0) (sub (hundredths 100) (div ttc horizon))

  -- `_uncertainty_penalty`
  abbrev pub penalty : F → F
  penalty confidence = sub (hundredths 100) confidence

  -- The greater of what was found so far and the vulnerability of one piece of evidence.
  abbrev raised : F → Option F → F
  raised top none = top
  raised top (some v) = if less top v then v else top

  unfoldable pub most_vulnerable : F → List (Option F) → F
  most_vulnerable top [] = top
  most_vulnerable top (v ∷ vs) = most_vulnerable (raised top v) vs

  -- `_extract_vulnerability`
  unfoldable pub extract_vulnerability : RiskEvent F → F
  extract_vulnerability r = most_vulnerable (hundredths 40) r.evidence

  unfoldable pub compute_factors : RiskPrioritizer → RiskEvent F → PrioritizationFactors
  compute_factors p r =
      let urgent : F = urgency p.horizon_s r.time_to_conflict_s in
      let unsure : F = penalty r.confidence in
      let vulnerable : F = extract_vulnerability r in
      let blend : F =
        add
          (add
            (add (add (mul p.w_probability r.risk_score) (mul p.w_ttc urgent))
              (mul p.w_uncertainty (sub (hundredths 100) unsure)))
            (mul p.w_consequence r.severity))
          (mul p.w_vulnerability vulnerable) in
      record {
        collision_probability = round r.risk_score;
        ttc_urgency = round urgent;
        uncertainty_penalty = round unsure;
        consequence = round r.severity;
        vulnerability = round vulnerable;
        composite_score = round (max_of (hundredths 0) (min_of (hundredths 100) blend));
      }

  abbrev pub score : RiskPrioritizer → RiskEvent F → ℕ
  score p r = PrioritizationFactors.composite_score (compute_factors p r)

  -- Whether a risk beats the best one so far; the score of no risk is -1.
  abbrev pub beats : RiskPrioritizer → RiskEvent F → Option (RiskEvent F) → Bool
  beats p r none = true
  beats p r (some best) = ltb (score p best) (score p r)

  -- The loop of `prioritize`
  unfoldable pub best_from :
      RiskPrioritizer → Option (RiskEvent F) → List (RiskEvent F) → Option (RiskEvent F)
  best_from p best [] = best
  best_from p best (r ∷ rs) = best_from p (if beats p r best then some r else best) rs

  unfoldable pub prioritize : RiskPrioritizer → List (RiskEvent F) → Option (RiskEvent F)
  prioritize p rs = best_from p none rs

  -- A risk of the list that scores more than each before it, and no less than each after it.
  pub record IsFirstBest (p : RiskPrioritizer) (rs : List (RiskEvent F)) (r : RiskEvent F)
      : Type 0 where
    pub before : List (RiskEvent F)
    pub after : List (RiskEvent F)
    pub split : rs ≡ before ++ r ∷ after
    pub above : All (λ x. score p x < score p r) before
    pub no_less : All (λ x. score p x ≤ score p r) after

  abbrev pub Picks : RiskPrioritizer → List (RiskEvent F) → Option (RiskEvent F) → Type 0
  Picks p rs none = rs ≡ []
  Picks p rs (some r) = IsFirstBest p rs r
