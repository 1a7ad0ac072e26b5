-- ===== src/Alerts/Store.antt =====
-- services/alerts/marga_alerts/store.py, `AlertStore`. The deque of the history is a list, oldest
-- first.
pub mod Contents
pub mod Query
use marga.Prelude.{
  ℕ, ◌+◌, ◌-◌, String, Bool, true, false, ◌&&◌, ◌||◌, Option, none, some, List, [], ◌∷◌, ◌++◌, map,
  if◌then◌else◌, leb, length, drop, take, ◌==◌, nat_eq, string_eq,
}
use marga.Prelude.Dict
use marga.Prelude.Dict.{Dict}
use marga.Alerts.Alert.{
  AlertState, resolved, expired, suppressed, same_state, AlertPriority, same_priority, GeoPoint,
  Alert,
}
use marga.Alerts.Lifecycle.{elem}

pub record Store : Type 0 where
  pub history_limit : ℕ
  pub active : Dict ℕ Alert
  pub history : List Alert

unfoldable pub init : ℕ → Store
init history_limit = record { history_limit = history_limit; active = []; history = [] }

-- `state in {RESOLVED, EXPIRED, SUPPRESSED}`
abbrev pub is_terminal : AlertState → Bool
is_terminal resolved = true
is_terminal expired = true
is_terminal suppressed = true
is_terminal _ = false

-- `append` on a deque with a maximal length.
unfoldable pub append {ℓ} : {A : Type ℓ} → ℕ → A → List A → List A
append maxlen x xs = drop (length xs + 1 - maxlen) (xs ++ x ∷ [])

-- `add`, and `update`, which has the same body.
unfoldable pub add : Alert → Store → Store
unfolding append
add a s =
    if is_terminal a.state
    then record s {
      active = Dict.pop a.alert_id s.active;
      history = append s.history_limit a s.history;
    }
    else record s { active = Dict.put a.alert_id a s.active }

unfoldable pub remove : ℕ → Store → Option Alert × Store
remove alert_id s = (Dict.get alert_id s.active, record s { active = Dict.pop alert_id s.active })

-- `for h in reversed(self._history)`: the last one with the identifier.
unfoldable pub find_last : ℕ → List Alert → Option Alert
find_last alert_id [] = none
find_last alert_id (h ∷ hs) = elim (find_last alert_id hs) [
  | some a ↦ some a
  | none ↦ if h.alert_id == alert_id then some h else none
]

unfoldable pub get : ℕ → Store → Option Alert
unfolding find_last
get alert_id s = elim (Dict.get alert_id s.active) [
  | some a ↦ some a
  | none ↦ find_last alert_id s.history
]

pub record Bbox : Type 0 where
  pub min_lat : ℕ
  pub min_lon : ℕ
  pub max_lat : ℕ
  pub max_lon : ℕ

unfoldable pub in_bbox : Option GeoPoint → Bbox → Bool
in_bbox none box = false
in_bbox (some p) box =
    leb box.min_lat p.lat && leb p.lat box.max_lat && leb box.min_lon p.lon && leb p.lon box.max_lon

-- The filters of `query`.
pub record Filters : Type 0 where
  pub bbox : Option Bbox
  pub actor_id : Option String
  pub alert_type : Option String
  pub state : Option AlertState
  pub priority : Option AlertPriority

-- A filter that is absent passes every alert.
abbrev pub passes {ℓ} : {A : Type ℓ} → (A → Bool) → Option A → Bool
passes test none = true
passes test (some x) = test x

-- The body of the loop of `query`: the tests in turn, up to the first that fails.
unfoldable pub matches : Filters → Alert → Bool
matches f a =
    passes (same_state a.state) f.state
    && passes (same_priority a.priority) f.priority
    && passes (λ t. a.alert_type == t) f.alert_type
    && passes (λ actor. elem actor a.affected_actor_ids) f.actor_id
    && passes (in_bbox a.position) f.bbox

-- The loop of `query`, on the results so far.
unfoldable pub query_from : Filters → ℕ → List Alert → List Alert → List Alert
query_from f limit results [] = results
query_from f limit results (a ∷ rest) =
    let more = query_from f limit (results ++ a ∷ []) rest in
    let skip = query_from f limit results rest in
    if leb limit (length results) then results else if matches f a then more else skip

abbrev pub asks_terminal : Option AlertState → Bool
asks_terminal none = false
asks_terminal (some s) = is_terminal s

unfoldable pub source : Filters → Store → List Alert
source f s = if asks_terminal f.state then s.history else map (λ e. e.1) s.active

unfoldable pub query : Filters → ℕ → Store → List Alert
unfolding query_from source
query f limit s = query_from f limit [] (source f s)

unfoldable pub get_active_count : Store → ℕ
get_active_count s = length s.active

abbrev pub reverse {ℓ} : {A : Type ℓ} → List A → List A
reverse [] = []
reverse (x ∷ xs) = reverse xs ++ x ∷ []

unfoldable pub get_history : ℕ → Store → List Alert
get_history limit s = take limit (reverse s.history)
