-- ===== src/Alerts/Service/Answers.antt =====
-- What `PATCH /v1/alerts/{alert_id}` of services/alerts/marga_alerts/api.py answers.
use mathlib.Core.Path.{subst}
use marga.Prelude.{
  ℕ, ◌≡◌, refl, ◌∙◌, sym, ap, ◌⊎◌, inl, inr, String, true, false, not, ◌&&◌, Option, none, some,
  arith, ◌==◌, nat_eq, string_eq, Bool-cases,
}
use marga.Prelude.Dict
use marga.Alerts.Alert.{AlertState, resolved, same_state, same_state_iff, Alert}
use marga.Alerts.Lifecycle.{
  Manager, allows, permitted, apply, update_alert, resolve, resolve_alert, updated,
  invalid_transition, Outcome,
}
use marga.Alerts.Store.{get}
use marga.Alerts.Service.{
  Service, PatchRequest, Response, ok, error_422, change, finish, patch_alert, only_state,
}
use marga.Alerts.Service.Agreement.{Agrees}

-- The outcome of a change of an alert in state `s` to state `t`.
Fits : AlertState → AlertState → Outcome × Manager → Type 0
Fits s t o =
    ((allows s t ≡ true) × ((b : Alert) × (o.0 ≡ updated b) × (b.state ≡ t)))
    ⊎ ((allows s t ≡ false) × (o.0 ≡ invalid_transition s t))

update-Fits :
    (k : ℕ) (t : AlertState) (now : ℕ) (m : Manager) (a : Alert)
    → Dict.get k m.alerts ≡ some a
    → Fits a.state t (update_alert k (only_state t) now m)
unfolding update_alert Fits permitted apply
update-Fits k t now m a held = elim (Bool-cases (allows a.state t)) [
  | inl e ↦ inl (e, (apply (only_state t) now a, rw (held, e, update_alert) refl, refl))
  | inr e ↦ inr (e, rw (held, e, update_alert) refl)
]

resolve-Fits :
    (k : ℕ) (reason : String) (now : ℕ) (m : Manager) (a : Alert)
    → Dict.get k m.alerts ≡ some a
    → Fits a.state resolved (resolve_alert k reason now m)
unfolding resolve_alert Fits resolve
resolve-Fits k reason now m a held = elim (Bool-cases (allows a.state resolved)) [
  | inl e ↦ inl (e, (resolve reason now a, rw (held, e, resolve_alert) refl, refl))
  | inr e ↦ inr (e, rw (held, e, resolve_alert) refl)
]

change-Fits :
    (k : ℕ) (t : AlertState) (r : Option String) (now : ℕ) (m : Manager) (a : Alert)
    → Dict.get k m.alerts ≡ some a
    → (o : Outcome × Manager) × (change k (record { state = some t; resolution_reason = r }) now m
        ≡ some o)
      × Fits a.state t o
unfolding change
change-Fits k t none now m a held = (_, refl, update-Fits k t now m a held)
change-Fits k t (some reason) now m a held =
    elim (Bool-cases (same_state t resolved && not (reason == ""))) [
      | inr e ↦ rw e (_, refl, update-Fits k t now m a held)
      | inl e ↦
          let is_resolved : t ≡ resolved = ground (arith, same_state_iff t resolved) in
          rw e (
            _,
            refl,
            subst (λ s. Fits a.state s (resolve_alert k reason now m)) (sym is_resolved)
                (resolve-Fits k reason now m a held),
          )
    ]

patch_alert-finish :
    (k : ℕ) (req : PatchRequest) (now : ℕ) (v : Service) (a : Alert) (o : Outcome × Manager)
    → Dict.get k v.store.active ≡ some a
    → change k req now v.lifecycle ≡ some o
    → patch_alert k req now v ≡ finish o v
unfolding patch_alert get
patch_alert-finish k req now v a o held e = rw (held, e, patch_alert, get) refl

finish-ok :
    (o : Outcome × Manager) (v : Service) (b : Alert) → o.0 ≡ updated b → (finish o v).0 ≡ ok b
unfolding finish
finish-ok (r, m) v b e = rw (e, finish) refl

finish-error_422 :
    (o : Outcome × Manager) (v : Service) (s t : AlertState)
    → o.0 ≡ invalid_transition s t
    → (finish o v).0 ≡ error_422
unfolding finish
finish-error_422 (r, m) v s t e = rw (e, finish) refl

-- A request to bring an active alert of the store to a state is answered by the alert in that state
-- where the state machine allows the transition, and by 422 where it does not.
pub patch_alert-answers :
    (k : ℕ) (t : AlertState) (r : Option String) (now : ℕ) (v : Service) (a : Alert)
    → Agrees v
    → Dict.get k v.store.active ≡ some a
    → ((allows a.state t ≡ true)
        × ((b : Alert) × ((patch_alert k (record { state = some t; resolution_reason = r }) now v).0
              ≡ ok b)
            × (b.state ≡ t)))
      ⊎ ((allows a.state t ≡ false)
          × ((patch_alert k (record { state = some t; resolution_reason = r }) now v).0
              ≡ error_422))
unfolding Fits
patch_alert-answers k t r now v a g held =
    let (o, e, fits) = change-Fits k t r now v.lifecycle a (g.shared k a held) in
    let done =
      ap (λ (x : Response × Service). x.0)
        (patch_alert-finish k (record { state = some t; resolution_reason = r }) now v a o held
          e) in
    elim fits [
      | inl (edge, (b, is_b, state)) ↦ inl (edge, (b, done ∙ finish-ok o v b is_b, state))
      | inr (no_edge, is_invalid) ↦ inr (no_edge, done ∙ finish-error_422 o v a.state t is_invalid)
    ]
