-- ===== src/Trust/Validator.antt =====
-- services/trust/marga_trust/validator.py, `TrustValidator`: the stages that a signed message passes. The
-- floats are those of Plausibility. Each clock that a stage reads is a field of `Clocks`; all times are
-- aware of their zone. Of the payload the fields of motion are given, numbers where they are present; the
-- publication of the events on the bus and the metrics are left out.
pub mod Stages
pub mod Scored
pub mod Earned
pub mod Once
mod Tests
use marga.Prelude.{
  ℕ, ◌+◌, ◌*◌, String, Bool, true, false, Option, none, some, List, [], ◌∷◌, ◌++◌, map,
  if◌then◌else◌, ltb, leb, ◌==◌, string_eq,
}
use marga.Trust.Replay
use marga.Trust.Replay.{second, ReplayCache, Clock, Rejection}
use marga.Trust.RateLimiter
use marga.Trust.RateLimiter.{TrustLevel, untrusted, medium, high, authority, RateLimiter}
use marga.Trust.Credential.{Verifier, verify_identity, verify_emergency}
use marga.Trust.Plausibility
use marga.Trust.Plausibility.{
  Floats, ActorType, pedestrian, animal, bike, auto, car, bus, truck, ambulance, other, Anomaly,
  PlausibilityChecker, Motion,
}

-- A time in the payload: a text, or a datetime.
pub data Stamp : Type 0 where
  text : String → Stamp
  datetime : ℕ → Stamp

pub record Payload (F : Type 0) : Type 0 where
  pub actor_id : Option String
  pub lat : Option F
  pub lon : Option F
  pub speed_mps : Option F
  pub ts : Option Stamp
  pub timestamp : Option Stamp
  pub actor_type : Option String
  pub road_segment_id : Option String

-- An empty payload is `none`. The signature is carried along and read by no stage.
pub record SignedMessage (F : Type 0) : Type 0 where
  pub sender_pseudonym : String
  pub credential_ref : Option String
  pub issued_at : ℕ
  pub expires_at : ℕ
  pub nonce : String
  pub payload_hash : String
  pub signature : String
  pub payload : Option (Payload F)

-- What the stages read of the clocks, in their order.
pub record Clocks : Type 0 where
  pub now : ℕ
  pub replay : Clock
  pub identity : ℕ
  pub emergency : ℕ
  pub rate : ℕ
  pub remaining : ℕ

pub data Lateness : Type 0 where
  message_expired invalid_ttl future_timestamp : Lateness

pub data Reason : Type 0 where
  late : Lateness → Reason
  replayed : Rejection → Reason
  credential_ok : TrustLevel → Reason
  credential_unknown emergency_denied rate_limited : Reason
  anomaly : Anomaly → Reason

-- `event_type`; the sender and the details are left out.
pub data TrustEvent : Type 0 where
  timestamp_rejected replay_rejected tampered_replay credential_verified : TrustEvent
  spoof_detected rate_limited plausibility_anomaly : TrustEvent

abbrev pub is_untrusted : TrustLevel → Bool
is_untrusted untrusted = true
is_untrusted _ = false

-- `_check_timestamps`
unfoldable pub check_timestamps : ℕ → ℕ → ℕ → Option Lateness
check_timestamps issued expires now =
    if leb expires now
    then some message_expired
    else if leb expires issued
    then some invalid_ttl
    else if ltb (now + 5 * second) issued
    then some future_timestamp
    else none

-- `ActorType(value)`, where an unknown value is OTHER.
unfoldable pub actor_type_of : String → ActorType
actor_type_of v =
    if v == "CAR"
    then car
    else if v == "BIKE"
    then bike
    else if v == "AUTO"
    then auto
    else if v == "BUS"
    then bus
    else if v == "TRUCK"
    then truck
    else if v == "AMBULANCE"
    then ambulance
    else if v == "PEDESTRIAN"
    then pedestrian
    else if v == "ANIMAL"
    then animal
    else other

abbrev pub or_else {ℓ} : {A : Type ℓ} → Option A → A → A
or_else none d = d
or_else (some a) d = a

-- `payload.get("ts") or payload.get("timestamp")`: an empty text counts as absent.
abbrev pub first_stamp : Option Stamp → Option Stamp → Option Stamp
first_stamp none b = b
first_stamp (some (datetime t)) b = some (datetime t)
first_stamp (some (text s)) b = if s == "" then b else some (text s)

abbrev pub event_of : Rejection → TrustEvent
event_of Replay.tampered_replay = tampered_replay
event_of _ = replay_rejected

abbrev pub has_level : TrustLevel → Bool
has_level high = true
has_level authority = true
has_level _ = false
