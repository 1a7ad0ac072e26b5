-- ===== src/Alerts/Service/Agreement.antt =====
-- The two copies that services/alerts/marga_alerts/api.py keeps of an alert.
use mathlib.Core.Path.{subst}
use marga.Prelude.{
  ℕ, ◌≡◌, refl, ◌∙◌, sym, ap, inl, inr, String, true, some, arith, ◌==◌, ◌&&◌, not, string_eq,
  nat_eq, Bool-cases, Option-cases,
}
use marga.Prelude.Dict
use marga.Alerts.Alert.{active, suppressed, resolved, same_state, Alert}
use marga.Alerts.Lifecycle.{
  Manager, allows, permitted, Updates, save, is_suppressed, create_alert, update_alert,
  resolve_alert, updated, not_found, invalid_transition, Outcome,
}
use marga.Alerts.Lifecycle.Expiry.{Tidy, put-Tidy}
use marga.Alerts.Store.{is_terminal, add, get}
use marga.Alerts.Service.{
  Service, post_alert, PatchRequest, change, finish, patch_alert, only_state,
}

-- The manager is tidy and holds every active alert of the store as the store does.
pub record Agrees (v : Service) : Type 0 where
  pub tidy : Tidy v.lifecycle.alerts
  pub shared :
      (k : ℕ) (a : Alert)
      → Dict.get k v.store.active ≡ some a
      → Dict.get k v.lifecycle.alerts ≡ some a

-- An alert written to the manager and added to the store.
saved-Agrees :
    (a : Alert) (m : Manager) {v : Service}
    → m.alerts ≡ Dict.put a.alert_id a v.lifecycle.alerts
    → Agrees v
    → Agrees (record { lifecycle = m; store = add a v.store })
unfolding add
saved-Agrees a m {v} e g = record {
  tidy = subst Tidy (sym e) (put-Tidy a v.lifecycle.alerts g.tidy);
  shared = λ k b f.
      ap (Dict.get k) e
      ∙ ground (
        arith,
        g.shared k b,
        Dict.get-put a.alert_id k a v.store.active,
        Dict.get-pop a.alert_id k v.store.active,
        Dict.get-put a.alert_id k a v.lifecycle.alerts,
      );
}

-- A suppressed alert, which goes to the store only.
closed-Agrees :
    (a : Alert) {v : Service}
    → is_terminal a.state ≡ true
    → Agrees v
    → Agrees (record v { store = add a v.store })
unfolding add
closed-Agrees a {v} closed g = record {
  tidy = g.tidy;
  shared = λ k b e. ground (arith, g.shared k b, Dict.get-pop a.alert_id k v.store.active);
}

pub post-Agrees : (a : Alert) (mono : ℕ) {v : Service} → Agrees v → Agrees (post_alert a mono v).1
unfolding post_alert create_alert
post-Agrees a mono {v} g =
    elim (Bool-cases (is_suppressed a.alert_type a.affected_actor_ids mono v.lifecycle)) [
      | inl held ↦
          rw (held, post_alert, create_alert)
            (closed-Agrees (record a { state = suppressed }) refl g)
      | inr new ↦
          rw (new, post_alert, create_alert) (saved-Agrees (record a { state = active }) _ refl g)
    ]

-- A change that returned an alert has written it, and nothing else; any other has written nothing.
Writes : Outcome × Manager → Manager → Type 0
Writes (updated a, m') m = m'.alerts ≡ Dict.put a.alert_id a m.alerts
Writes (_, m') m = m' ≡ m

update-Writes : (k : ℕ) (u : Updates) (now : ℕ) (m : Manager) → Writes (update_alert k u now m) m
unfolding update_alert Writes save
update-Writes k u now m = elim (Option-cases (Dict.get k m.alerts)) [
  | inl e ↦ rw (e, update_alert, Writes) refl
  | inr (a, e) ↦ elim (Bool-cases (permitted a.state u.state)) [
    | inl f ↦ rw (e, f, update_alert, Writes) refl
    | inr f ↦ rw (e, f, update_alert, Writes) refl
  ]
]

resolve-Writes :
    (k : ℕ) (reason : String) (now : ℕ) (m : Manager) → Writes (resolve_alert k reason now m) m
unfolding resolve_alert Writes save
resolve-Writes k reason now m = elim (Option-cases (Dict.get k m.alerts)) [
  | inl e ↦ rw (e, resolve_alert, Writes) refl
  | inr (a, e) ↦ elim (Bool-cases (allows a.state resolved)) [
    | inl f ↦ rw (e, f, resolve_alert, Writes) refl
    | inr f ↦ rw (e, f, resolve_alert, Writes) refl
  ]
]

finish-Agrees :
    (o : Outcome × Manager) {v : Service} → Writes o v.lifecycle → Agrees v → Agrees (finish o v).1
unfolding finish Writes
finish-Agrees (updated a, m) {v} w g = saved-Agrees a m w g
finish-Agrees (not_found, m) {v} w g = subst (λ l. Agrees (record v { lifecycle = l })) (sym w) g
finish-Agrees (invalid_transition s t, m) {v} w g =
    subst (λ l. Agrees (record v { lifecycle = l })) (sym w) g

change-Writes :
    (k : ℕ) (req : PatchRequest) (now : ℕ) (m : Manager) (o : Outcome × Manager)
    → change k req now m ≡ some o
    → Writes o m
unfolding change
change-Writes k req now m o e = elim (Option-cases req.state) [
  | inl n ↦ absurd (ground arith)
  | inr (s, f) ↦ elim (Option-cases req.resolution_reason) [
    | inl n ↦ subst (λ x. Writes x m) (ground arith) (update-Writes k (only_state s) now m)
    | inr (reason, r) ↦ elim (Bool-cases (same_state s resolved && not (reason == ""))) [
      | inl t ↦ subst (λ x. Writes x m) (ground arith) (resolve-Writes k reason now m)
      | inr t ↦ subst (λ x. Writes x m) (ground arith) (update-Writes k (only_state s) now m)
    ]
  ]
]

-- Both handlers keep the manager and the active alerts of the store in agreement: a request, whether
-- it succeeds or fails, leaves every active alert of the store in the manager, in the same version.
pub handlers-Agrees :
    (v : Service)
    → Agrees v
    → ((a : Alert) (mono : ℕ) → Agrees (post_alert a mono v).1)
      × ((k : ℕ) (req : PatchRequest) (now : ℕ) → Agrees (patch_alert k req now v).1)
unfolding patch_alert
handlers-Agrees v g = (λ a mono. post-Agrees a mono g, λ k req now. patch-Agrees k req now)
  where
    patch-Agrees : (k : ℕ) (req : PatchRequest) (now : ℕ) → Agrees (patch_alert k req now v).1
    patch-Agrees k req now = elim (Option-cases (get k v.store)) [
      | inl e ↦ rw (e, patch_alert) g
      | inr (a, e) ↦ elim (Option-cases (change k req now v.lifecycle)) [
        | inl f ↦ rw (e, f, patch_alert) g
        | inr (o, f) ↦
            rw (e, f, patch_alert) (finish-Agrees o (change-Writes k req now v.lifecycle o f) g)
      ]
    ]
