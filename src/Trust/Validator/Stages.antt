-- ===== src/Trust/Validator/Stages.antt =====
-- `validate` of services/trust/marga_trust/validator.py, stage by stage. `fromisoformat` is the parser of
-- the language, which may refuse a text; `validate` then raises, which is `none` here.
use marga.Prelude.{
  ℕ, String, Bool, true, false, not, ◌&&◌, Option, none, some, List, [], ◌∷◌, ◌++◌, map,
  if◌then◌else◌, string_eq,
}
use marga.Trust.Replay
use marga.Trust.Replay.{ReplayCache, Request}
use marga.Trust.RateLimiter
use marga.Trust.RateLimiter.{TrustLevel, untrusted, medium, RateLimiter}
use marga.Trust.Credential.{Verifier, verify_identity, verify_emergency}
use marga.Trust.Plausibility
use marga.Trust.Plausibility.{Floats, Anomaly, PlausibilityChecker, Motion}
use marga.Trust.Validator.{
  Stamp, text, datetime, Payload, SignedMessage, Clocks, Reason, late, replayed, credential_ok,
  credential_unknown, emergency_denied, rate_limited, anomaly, TrustEvent, is_untrusted,
  check_timestamps, actor_type_of, or_else, first_stamp, event_of, has_level, timestamp_rejected,
  credential_verified, spoof_detected, plausibility_anomaly,
}

-- What the credentials of a sender give: his level, and what is noted.
pub record Standing : Type 0 where
  pub level : TrustLevel
  pub verified : Bool
  pub reasons : List Reason
  pub events : List TrustEvent

unfoldable pub identified : TrustLevel → Standing
identified level =
    if is_untrusted level
    then record { level = level; verified = false; reasons = credential_unknown ∷ []; events = [] }
    else record {
      level = level;
      verified = true;
      reasons = credential_ok level ∷ [];
      events = credential_verified ∷ [];
    }

abbrev pub denied : Standing → Standing
denied s = record {
  level = untrusted;
  verified = false;
  reasons = s.reasons ++ emergency_denied ∷ [];
  events = s.events ++ spoof_detected ∷ [];
}

abbrev pub is_named : Option String → Bool
is_named none = false
is_named (some role) = true

-- Stage 4. A role that is claimed and not confirmed takes the level away.
unfoldable pub credentials : Clocks → String → Option String → Verifier → Standing
unfolding identified verify_identity verify_emergency
credentials k sender ref v =
    let s = identified (verify_identity sender k.identity v) in
    if is_named ref && not (verify_emergency sender ref k.emergency v) then denied s else s

module _ (fl : Floats) (fromisoformat : String → Option ℕ) where
  open fl use {F, tenths, less, at_most}

  pub record TrustValidator : Type 0 where
    pub replay_cache : ReplayCache
    pub rate_limiter : RateLimiter
    pub credential_verifier : Verifier
    pub plausibility_checker : PlausibilityChecker fl
    pub audit_log : List TrustEvent

  pub record TrustAssessment : Type 0 where
    pub sender_id : String
    pub trust_level : TrustLevel
    pub reasons : List Reason
    pub credential_verified : Bool
    pub plausibility_score : F
    pub rate_limit_remaining : Option ℕ

  abbrev pub Message : Type 0
  Message = SignedMessage F

  abbrev pub emit : List TrustEvent → TrustValidator → TrustValidator
  emit events v = record v { audit_log = v.audit_log ++ events }

  -- The assessment of a message that stage 2 or 3 rejects.
  abbrev pub rejected : Message → Reason → TrustAssessment
  rejected m reason = record {
    sender_id = m.sender_pseudonym;
    trust_level = untrusted;
    reasons = reason ∷ [];
    credential_verified = false;
    plausibility_score = tenths 0;
    rate_limit_remaining = none;
  }

  -- What the replay cache is asked.
  abbrev pub request : Clocks → Message → Request
  request k m = record {
    clock = k.replay;
    sender_pseudonym = m.sender_pseudonym;
    nonce = m.nonce;
    payload_hash = m.payload_hash;
    issued_at = m.issued_at;
    expires_at = m.expires_at;
  }

  -- The time of the motion: `none` where the text is refused.
  abbrev pub motion_time : Message → Option Stamp → Option ℕ
  motion_time m none = some m.issued_at
  motion_time m (some (datetime t)) = some t
  motion_time m (some (text s)) = fromisoformat s

  abbrev pub motion_at : Payload F → String → F → F → Option ℕ → Option (Option (Motion fl))
  motion_at p actor lat lon none = none
  motion_at p actor lat lon (some t) = some (
      some (record {
        actor_id = actor;
        lat = lat;
        lon = lon;
        speed_mps = or_else p.speed_mps (tenths 0);
        timestamp = t;
        actor_type = actor_type_of (or_else p.actor_type "CAR");
        road_segment_id = p.road_segment_id;
      }))

  -- The motion that the payload tells, if it names an actor and his position.
  unfoldable pub motion_from :
      Message → Payload F → Option String → Option F → Option F → Option (Option (Motion fl))
  unfolding actor_type_of
  motion_from m p (some actor) (some lat) (some lon) =
      motion_at p actor lat lon (motion_time m (first_stamp p.ts p.timestamp))
  motion_from m p _ _ _ = some none

  unfoldable pub motion_of : Message → Option (Payload F) → Option (Option (Motion fl))
  unfolding motion_from
  motion_of m none = some none
  motion_of m (some p) = motion_from m p p.actor_id p.lat p.lon

  -- `_run_plausibility`: the score, the anomalies and the checker after.
  unfoldable pub run_plausibility :
      Message → PlausibilityChecker fl → Option (F × List Anomaly × PlausibilityChecker fl)
  unfolding motion_of Plausibility.check
  run_plausibility m c = elim (motion_of m m.payload) [
    | none ↦ none
    | some none ↦ some (tenths 5, [], c)
    | some (some motion) ↦
        let (verdict, c') = Plausibility.check fl motion c in some (verdict.0, verdict.1, c')
  ]

  -- `_adjust_trust`
  unfoldable pub adjust_trust : TrustLevel → F → TrustLevel
  adjust_trust base score =
      if at_most score (tenths 2)
      then untrusted
      else if less score (tenths 4) && has_level base
      then medium
      else base

  abbrev pub noted : List Anomaly → List TrustEvent
  noted [] = []
  noted (a ∷ found) = plausibility_anomaly ∷ []

  -- Stages 6 and 7.
  unfoldable pub judge :
      Message → Standing → ℕ → TrustValidator → Option TrustAssessment × TrustValidator
  unfolding run_plausibility adjust_trust
  judge m s left v = elim (run_plausibility m v.plausibility_checker) [
    | none ↦ (none, v)
    | some (score, found, checker) ↦ (
      some (record {
        sender_id = m.sender_pseudonym;
        trust_level = adjust_trust s.level score;
        reasons = s.reasons ++ map anomaly found;
        credential_verified = s.verified;
        plausibility_score = score;
        rate_limit_remaining = some left;
      }),
      record v { plausibility_checker = checker; audit_log = v.audit_log ++ noted found },
    )
  ]

  abbrev pub limited : Message → Standing → TrustAssessment
  limited m s = record {
    sender_id = m.sender_pseudonym;
    trust_level = untrusted;
    reasons = s.reasons ++ rate_limited ∷ [];
    credential_verified = s.verified;
    plausibility_score = tenths 0;
    rate_limit_remaining = some 0;
  }

  -- Stage 5, for a sender with a standing.
  unfoldable pub meter :
      Clocks → Message → Standing → TrustValidator → Option TrustAssessment × TrustValidator
  meter k m s v =
      let (allowed, limiter) = RateLimiter.check m.sender_pseudonym s.level k.rate v.rate_limiter in
      let (left, limiter') = RateLimiter.get_remaining m.sender_pseudonym k.remaining limiter in
      let v' : TrustValidator = record v {
        rate_limiter = limiter';
        audit_log = v.audit_log ++ s.events;
      } in
      if allowed
      then judge m s left v'
      else (some (limited m s), emit (TrustEvent.rate_limited ∷ []) v')

  unfoldable pub after_replay :
      Clocks → Message → TrustValidator → Option TrustAssessment × TrustValidator
  after_replay k m v =
      meter k m (credentials k m.sender_pseudonym m.credential_ref v.credential_verifier) v

  -- `_validate_inner`
  unfoldable pub validate :
      Clocks → Message → TrustValidator → Option TrustAssessment × TrustValidator
  validate k m v = elim (check_timestamps m.issued_at m.expires_at k.now) [
    | some reason ↦ (some (rejected m (late reason)), emit (timestamp_rejected ∷ []) v)
    | none ↦
        let (verdict, cache) = Replay.check (request k m) v.replay_cache in
        let v' : TrustValidator = record v { replay_cache = cache } in
        elim verdict [
          | some reason ↦ (some (rejected m (replayed reason)), emit (event_of reason ∷ []) v')
          | none ↦ after_replay k m v'
        ]
  ]
