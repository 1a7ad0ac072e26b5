-- ===== src/Messaging/Connectivity.antt =====
-- services/messaging/marga_messaging/connectivity.py, `ConnectivityMonitor`. A success rate is
-- compared with its threshold in tenths, on the counts; the listeners are left out.
pub mod Inference
pub mod Recovery
mod Tests
use marga.Prelude.{
  ℕ, ◌+◌, ◌-◌, ◌*◌, String, Bool, true, false, not, ◌&&◌, ◌||◌, Option, none, some, List, [], ◌∷◌,
  ◌++◌, if◌then◌else◌, leb, ltb, length, drop, ◌==◌, string_eq,
}
use marga.Prelude.Dict
use marga.Prelude.Dict.{Dict}
use marga.Messaging.StoreForward.{ConnectivityState, full, direct_only, intermittent, isolated}

-- `_WINDOW_SIZE`
abbrev pub window_size : ℕ
window_size = 20

-- The thresholds, in tenths.
abbrev pub threshold_full : ℕ
threshold_full = 9

abbrev pub threshold_intermittent : ℕ
threshold_intermittent = 3

pub record Monitor : Type 0 where
  pub state : ConnectivityState
  pub route_windows : Dict String (List Bool)
  pub last_cloud_contact : Option ℕ
  pub last_direct_contact : Option ℕ

abbrev pub init : Monitor
init = record {
  state = full;
  route_windows = [];
  last_cloud_contact = none;
  last_direct_contact = none;
}

-- `append` on a deque with a maximal length, oldest first.
unfoldable pub append : Bool → List Bool → List Bool
append ok w = drop (length w + 1 - window_size) (w ++ ok ∷ [])

-- The window of a route; a route that was never reported on has none, and counts as empty.
unfoldable pub window : String → Monitor → List Bool
window route m = elim (Dict.get route m.route_windows) [ none ↦ [] | some w ↦ w ]

-- `sum(1 for ok in window if ok)`
unfoldable pub successes : List Bool → ℕ
successes [] = 0
successes (ok ∷ w) = if ok then successes w + 1 else successes w

abbrev pub is_empty : List Bool → Bool
is_empty [] = true
is_empty (_ ∷ _) = false

-- `_success_rate(route) >= threshold`; the rate of an empty window is zero.
unfoldable pub rate_at_least : ℕ → List Bool → Bool
unfolding successes
rate_at_least threshold w =
    if is_empty w then leb threshold 0 else leb (threshold * length w) (10 * successes w)

unfoldable pub infer_state : List Bool → List Bool → ConnectivityState
infer_state cloud direct =
    if is_empty cloud && is_empty direct
    then full
    else if rate_at_least threshold_full cloud
        && (is_empty direct || rate_at_least threshold_full direct)
    then full
    else if rate_at_least threshold_full cloud
    then full
    else if not (rate_at_least threshold_intermittent cloud) && rate_at_least threshold_full direct
    then direct_only
    else if rate_at_least threshold_intermittent cloud
        || rate_at_least threshold_intermittent direct
    then intermittent
    else isolated

-- The contact times that a success updates.
unfoldable pub contact : Bool → String → ℕ → Monitor → Monitor
contact false route now m = m
contact true route now m =
    if route == "cloud"
    then record m { last_cloud_contact = some now }
    else if route == "direct"
    then record m { last_direct_contact = some now }
    else m

unfoldable pub report_delivery : Bool → String → ℕ → Monitor → Monitor
unfolding window
report_delivery success route now m =
    let w = append success (window route m) in
    let m' =
      contact success route now (record m { route_windows = Dict.put route w m.route_windows }) in
    record m' { state = infer_state (window "cloud" m') (window "direct" m') }

-- `cloud_reachable` of `get_link_state`
unfoldable pub cloud_reachable : Monitor → Bool
cloud_reachable m = rate_at_least threshold_intermittent (window "cloud" m)
