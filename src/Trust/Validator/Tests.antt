-- ===== src/Trust/Validator/Tests.antt =====
-- Runs of the trust pipeline and of the plausibility checks, and their theorems at concrete inputs.
use marga.Prelude.{
  ℕ, ◌+◌, ◌-◌, ◌*◌, ◌/◌, max, ◌≡◌, refl, String, true, Option, none, some, [], ◌∷◌, ltb, leb, arith,
  string_eq, keep,
}
use marga.Prelude.Dict
use marga.Trust.Replay
use marga.Trust.Replay.{second, ReplayCache, Clock}
use marga.Trust.RateLimiter
use marga.Trust.RateLimiter.{
  RateLimiter, high, medium, try_consume, refill, new_bucket, default_limits, default_burst,
  get_or_create, remaining, record_rejection,
}
use marga.Trust.Credential.{CredentialRecord, verify_identity, is_expired}
use marga.Trust.Plausibility.{Floats, Motion, PlausibilityChecker, car}
use marga.Trust.Plausibility
use marga.Trust.Validator.{
  actor_type_of, SignedMessage, Clocks, is_untrusted, check_timestamps, replayed, credential_ok,
}
use marga.Trust.Validator.Stages.{
  TrustValidator, TrustAssessment, validate, after_replay, meter, judge, run_plausibility,
  motion_of, motion_from, adjust_trust, credentials, identified, rejected,
}
use marga.Trust.Validator.Earned.{Earned, validate-Earned}
use marga.Trust.Validator.Once
use marga.Trust.Validator.Once.{validate_once, InTurn}

-- Tenths as floats.
abbrev tenth_floats : Floats
tenth_floats = record {
  F = ℕ;
  tenths = λ n. n;
  mul = λ a b. a * b / 10;
  div = λ a b. a * 10 / b;
  max_of = max;
  difference = λ a b. (a - b) + (b - a);
  less = ltb;
  at_most = leb;
  seconds = λ t. t * 10 / second;
  round_4 = λ x. x;
  distance = λ a b c d. (a - c) + (c - a) + (b - d) + (d - b);
}

abbrev no_parser : String → Option ℕ
no_parser s = none

abbrev seen_at : ℕ → Motion tenth_floats
seen_at t = record {
  actor_id = "A";
  lat = 0;
  lon = 0;
  speed_mps = 100;
  timestamp = t;
  actor_type = car;
  road_segment_id = none;
}

abbrev blank : PlausibilityChecker tenth_floats
blank = record { snapshots = []; teleport_threshold_m = 50_000 }

abbrev clock : ℕ → Clock
clock t = record { utc = t; mono = t }

abbrev clocks : ℕ → Clocks
clocks t = record {
  now = t;
  replay = clock t;
  identity = t;
  emergency = t;
  rate = t;
  remaining = t;
}

abbrev message : SignedMessage ℕ
message = record {
  sender_pseudonym = "bus";
  credential_ref = none;
  issued_at = 10 * second;
  expires_at = 40 * second;
  nonce = "n";
  payload_hash = "h";
  signature = "s";
  payload = none;
}

abbrev bus_record : CredentialRecord
bus_record = record {
  sender_id = "bus";
  trust_level = high;
  emergency_roles = [];
  expires_at = none;
}

abbrev validator : TrustValidator tenth_floats no_parser
validator = record {
  replay_cache = record {
    cache = [];
    cleanup_interval_s = 60 * second;
    extra_retention_s = 30 * second;
    last_cleanup = 0;
  };
  rate_limiter = record {
    limits = λ l. none;
    burst = λ l. none;
    buckets = [];
    overall = record { tokens = 1_000_000; capacity = 1; refill_rate = 1; last_refill = 0 };
    rejections = [];
    total_rejections = 0;
  };
  credential_verifier = ("bus", bus_record) ∷ [];
  plausibility_checker = blank;
  audit_log = [];
}

abbrev trusted : TrustAssessment tenth_floats no_parser
trusted = record {
  sender_id = "bus";
  trust_level = high;
  reasons = credential_ok high ∷ [];
  credential_verified = true;
  plausibility_score = 5;
  rate_limit_remaining = some 3;
}

validate_run :
    (validate tenth_floats no_parser (clocks (11 * second)) message validator).0 ≡ some trusted
unfolding validate after_replay meter judge run_plausibility motion_of motion_from adjust_trust
    credentials identified check_timestamps Replay.check Replay.look_up Replay.maybe_cleanup keep
    RateLimiter.check RateLimiter.get_remaining try_consume refill new_bucket default_limits
    default_burst get_or_create remaining verify_identity is_expired Dict.get Dict.put
validate_run = refl

-- The message with a motion of the bus.
abbrev moving : SignedMessage ℕ
moving = record message {
  payload = some (record {
    actor_id = some "A";
    lat = some 3;
    lon = some 4;
    speed_mps = some 100;
    ts = none;
    timestamp = none;
    actor_type = none;
    road_segment_id = none;
  });
}

abbrev plausible : TrustAssessment tenth_floats no_parser
plausible = record trusted { plausibility_score = 10 }

moving_run :
    (validate tenth_floats no_parser (clocks (11 * second)) moving validator).0 ≡ some plausible
unfolding validate after_replay meter judge run_plausibility motion_of motion_from adjust_trust
    credentials identified check_timestamps Replay.check Replay.look_up Replay.maybe_cleanup keep
    RateLimiter.check RateLimiter.get_remaining try_consume refill new_bucket default_limits
    default_burst get_or_create remaining verify_identity is_expired Dict.get Dict.put actor_type_of
    Plausibility.check Plausibility.speed_sanity Plausibility.history_check Plausibility.max_speed
moving_run = refl

validate-Earned_example :
    Earned tenth_floats no_parser (clocks (11 * second)) moving validator plausible
validate-Earned_example =
    validate-Earned tenth_floats no_parser (clocks (11 * second)) moving validator {a = plausible}
      moving_run refl

-- The same message a second later.
abbrev replayed_later : TrustAssessment tenth_floats no_parser
replayed_later = rejected tenth_floats no_parser message (replayed Replay.duplicate_nonce)

again_run :
    (validate tenth_floats no_parser (clocks (12 * second)) message (
      Once.run tenth_floats no_parser []
        (validate tenth_floats no_parser (clocks (11 * second)) message validator).1)).0
    ≡ some replayed_later
unfolding Once.run validate after_replay meter judge run_plausibility motion_of motion_from
    adjust_trust credentials identified check_timestamps Replay.check Replay.look_up
    Replay.maybe_cleanup keep RateLimiter.check RateLimiter.get_remaining try_consume refill
    new_bucket default_limits default_burst get_or_create remaining verify_identity is_expired
    Dict.get Dict.put
again_run = refl

validate_once_example : is_untrusted replayed_later.trust_level ≡ true
unfolding check_timestamps Replay.check Replay.look_up Replay.maybe_cleanup keep Dict.get InTurn
validate_once_example =
    validate_once tenth_floats no_parser (clocks (11 * second), message) []
      (clocks (12 * second), message) validator {a = replayed_later} refl refl (omega arith) refl
      refl again_run
