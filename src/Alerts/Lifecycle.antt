-- ===== src/Alerts/Lifecycle.antt =====
-- services/alerts/marga_alerts/lifecycle.py, `AlertLifecycleManager`. The wall clock and the
-- monotonic clock are arguments; they and the cooldowns are in microseconds.
pub mod Transitions
pub mod Expiry
pub mod Hysteresis
use marga.Prelude.{
  ℕ, ◌+◌, ◌-◌, ◌*◌, String, Bool, true, false, ◌&&◌, ◌||◌, Option, none, some, List, [], ◌∷◌, map,
  if◌then◌else◌, ltb, leb, ◌==◌, nat_eq, string_eq,
}
use marga.Prelude.Dict
use marga.Prelude.Dict.{Dict}
use marga.Alerts.Alert.{
  second, AlertState, active, acknowledged, resolved, expired, suppressed, same_state, Alert,
}

-- `t in _TRANSITIONS[s]`
unfoldable pub allows : AlertState → AlertState → Bool
allows active acknowledged = true
allows active resolved = true
allows active expired = true
allows active suppressed = true
allows acknowledged resolved = true
allows _ _ = false

-- `x in xs`
unfoldable pub elem : String → List String → Bool
elem s [] = false
elem s (x ∷ xs) = x == s || elem s xs

unfoldable pub is_subset : List String → List String → Bool
unfolding elem
is_subset [] ys = true
is_subset (x ∷ xs) ys = elem x ys && is_subset xs ys

-- A key of `_hysteresis`: the type and the set of actors, given by a list.
abbrev pub HysteresisKey : Type 0
HysteresisKey = String × List String

-- Equality of keys; two frozensets are equal where each holds what the other holds.
unfoldable pub same_key : HysteresisKey → HysteresisKey → Bool
unfolding is_subset
same_key (t, xs) (u, ys) = t == u && is_subset xs ys && is_subset ys xs

unfoldable pub last_fire : HysteresisKey → List (HysteresisKey × ℕ) → Option ℕ
last_fire k [] = none
last_fire k ((j, t) ∷ h) = if same_key j k then some t else last_fire k h

unfoldable pub set_fire : HysteresisKey → ℕ → List (HysteresisKey × ℕ) → List (HysteresisKey × ℕ)
set_fire k t [] = (k, t) ∷ []
set_fire k t ((j, u) ∷ h) = if same_key j k then (j, t) ∷ h else (j, u) ∷ set_fire k t h

pub record Manager : Type 0 where
  pub default_cooldown_s : ℕ
  pub cooldowns : Dict String ℕ
  pub alerts : Dict ℕ Alert
  pub hysteresis : List (HysteresisKey × ℕ)
  pub created_count : ℕ

unfoldable pub init : ℕ → Dict String ℕ → Manager
init default_cooldown_s cooldowns = record {
  default_cooldown_s = default_cooldown_s;
  cooldowns = cooldowns;
  alerts = [];
  hysteresis = [];
  created_count = 0;
}

abbrev pub hysteresis_key : Alert → HysteresisKey
hysteresis_key a = (a.alert_type, a.affected_actor_ids)

-- `self.cooldowns.get(alert_type, self.default_cooldown_s)`
unfoldable pub cooldown : String → Manager → ℕ
cooldown alert_type m = elim (Dict.get alert_type m.cooldowns) [
  | some c ↦ c
  | none ↦ m.default_cooldown_s
]

unfoldable pub is_suppressed : String → List String → ℕ → Manager → Bool
is_suppressed alert_type actor_ids mono m = elim (last_fire (alert_type, actor_ids) m.hysteresis) [
  | none ↦ false
  | some last ↦ ltb (mono - last) (cooldown alert_type m)
]

unfoldable pub create_alert : Alert → ℕ → Manager → Alert × Manager
create_alert a mono m =
    if is_suppressed a.alert_type a.affected_actor_ids mono m
    then (record a { state = suppressed }, m)
    else (
      record a { state = active },
      record m {
        hysteresis = set_fire (hysteresis_key a) mono m.hysteresis;
        alerts = Dict.put a.alert_id (record a { state = active }) m.alerts;
        created_count = m.created_count + 1;
      },
    )

-- The keys of `updates` that this code or the schema's expiry read; `alert_id` is none of them.
pub record Updates : Type 0 where
  pub state : Option AlertState
  pub expires_at : Option (Option ℕ)
  pub ttl_s : Option (Option ℕ)

abbrev or_else {ℓ} : {A : Type ℓ} → A → Option A → A
or_else old none = old
or_else old (some new) = new

-- `model_copy(update=updates)`
unfoldable pub apply : Updates → ℕ → Alert → Alert
apply u now a = record a {
  state = or_else a.state u.state;
  expires_at = or_else a.expires_at u.expires_at;
  ttl_s = or_else a.ttl_s u.ttl_s;
  updated_at = now;
}

-- What an operation returns, or the error it raises.
pub data Outcome : Type 0 where
  updated : Alert → Outcome
  not_found : Outcome
  invalid_transition : AlertState → AlertState → Outcome

unfoldable pub save : Alert → Manager → Manager
save a m = record m { alerts = Dict.put a.alert_id a m.alerts }

unfoldable pub permitted : AlertState → Option AlertState → Bool
permitted s none = true
permitted s (some t) = allows s t

unfoldable pub update_alert : ℕ → Updates → ℕ → Manager → Outcome × Manager
update_alert alert_id u now m = elim (Dict.get alert_id m.alerts) [
  | none ↦ (not_found, m)
  | some a ↦
      if permitted a.state u.state
      then (updated (apply u now a), save (apply u now a) m)
      else (invalid_transition a.state (or_else a.state u.state), m)
]

unfoldable pub resolve : String → ℕ → Alert → Alert
resolve reason now a = record a {
  state = resolved;
  updated_at = now;
  machine_reasoning = Dict.put "resolution_reason" reason a.machine_reasoning;
}

unfoldable pub resolve_alert : ℕ → String → ℕ → Manager → Outcome × Manager
resolve_alert alert_id reason now m = elim (Dict.get alert_id m.alerts) [
  | none ↦ (not_found, m)
  | some a ↦
      if allows a.state resolved
      then (updated (resolve reason now a), save (resolve reason now a) m)
      else (invalid_transition a.state resolved, m)
]

-- The tests of the body of the loop of `expire_stale`.
unfoldable pub is_stale : ℕ → Alert → Bool
is_stale now a = same_state a.state active && elim a.expires_at [
  | some e ↦ leb e now
  | none ↦ elim a.ttl_s [ some ttl ↦ leb (a.created_at + ttl * second) now | none ↦ false ]
]

unfoldable pub expire : ℕ → Alert → Alert
expire now a = record a { state = expired; updated_at = now }

-- The loop, over the alerts as they were at its start.
unfoldable pub expire_from : ℕ → List Alert → Manager → List ℕ × Manager
expire_from now [] m = ([], m)
expire_from now (a ∷ rest) m =
    let m' : Manager = if is_stale now a then save (expire now a) m else m in
    let (ids, m'') = expire_from now rest m' in
    (if is_stale now a then a.alert_id ∷ ids else ids, m'')

abbrev pub values : Dict ℕ Alert → List Alert
values = map (λ e. e.1)

unfoldable pub expire_stale : ℕ → Manager → List ℕ × Manager
unfolding expire_from
expire_stale now m = expire_from now (values m.alerts) m

-- `get`
unfoldable pub find_alert : ℕ → Manager → Option Alert
find_alert alert_id m = Dict.get alert_id m.alerts
