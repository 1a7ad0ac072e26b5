-- ===== src/Alerts/Service.antt =====
-- services/alerts/marga_alerts/api.py: the two handlers that change state, over the manager and the
-- store of the service. Their broadcast is left out.
pub mod Agreement
pub mod Answers
use marga.Prelude.{
  ℕ, String, ◌≡◌, refl, Option, none, some, Bool, true, false, not, ◌&&◌, ◌==◌, string_eq,
  if◌then◌else◌,
}
use marga.Alerts.Alert.{AlertState, resolved, same_state, Alert}
use marga.Alerts.Lifecycle.{
  Manager, create_alert, Updates, Outcome, updated, not_found, invalid_transition, update_alert,
  resolve_alert,
}
use marga.Alerts.Store.{Store, add, get}

pub record Service : Type 0 where
  pub lifecycle : Manager
  pub store : Store

-- `POST /v1/alerts`
unfoldable pub post_alert : Alert → ℕ → Service → Alert × Service
post_alert a mono v =
    let (a', m) = create_alert a mono v.lifecycle in
    (a', record { lifecycle = m; store = add a' v.store })

-- `AlertPatchRequest`
pub record PatchRequest : Type 0 where
  pub state : Option AlertState
  pub resolution_reason : Option String

-- The answers: the alert, or a status code.
pub data Response : Type 0 where
  ok : Alert → Response
  error_404 error_400 error_422 : Response

abbrev pub only_state : AlertState → Updates
only_state s = record { state = some s; expires_at = none; ttl_s = none }

-- The choice between the operations; an empty reason counts as none.
unfoldable pub change : ℕ → PatchRequest → ℕ → Manager → Option (Outcome × Manager)
change alert_id req now m = elim req.state [
  | none ↦ none
  | some s ↦ elim req.resolution_reason [
    | none ↦ some (update_alert alert_id (only_state s) now m)
    | some reason ↦ some (
        if same_state s resolved && not (reason == "")
        then resolve_alert alert_id reason now m
        else update_alert alert_id (only_state s) now m)
  ]
]

-- The end of the handler: `store.update(alert)` on success, or the error.
unfoldable pub finish : Outcome × Manager → Service → Response × Service
finish (updated a, m) v = (ok a, record { lifecycle = m; store = add a v.store })
finish (not_found, m) v = (error_404, record v { lifecycle = m })
finish (invalid_transition s t, m) v = (error_422, record v { lifecycle = m })

-- `PATCH /v1/alerts/{alert_id}`
unfoldable pub patch_alert : ℕ → PatchRequest → ℕ → Service → Response × Service
patch_alert alert_id req now v = elim (get alert_id v.store) [
  | none ↦ (error_404, v)
  | some existing ↦ elim (change alert_id req now v.lifecycle) [
    | none ↦ (error_400, v)
    | some o ↦ finish o v
  ]
]
