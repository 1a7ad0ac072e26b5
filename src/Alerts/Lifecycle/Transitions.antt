-- ===== src/Alerts/Lifecycle/Transitions.antt =====
-- The state machine of services/alerts/marga_alerts/lifecycle.py, over any operations.
use mathlib.Core.Path.{subst}
use marga.Prelude.{
  ℕ, ◌≡◌, refl, ◌∙◌, sym, ap, ◌⊎◌, inl, inr, String, true, false, some, List, [], ◌∷◌, arith,
  if◌then◌else◌, ◌==◌, nat_eq, nat_eqb_iff, Bool-cases, Option-cases, All,
}
use marga.Prelude.Dict
use marga.Alerts.Alert.{
  AlertState, active, acknowledged, resolved, expired, suppressed, same_state_iff, Alert,
}
use marga.Alerts.Lifecycle.{
  Manager, allows, permitted, is_suppressed, Updates, apply, save, create_alert, update_alert,
  resolve, resolve_alert, is_stale, expire, expire_stale,
}
use marga.Alerts.Lifecycle.Expiry.{Tidy, put-Tidy, get-Tidy, expire_stale-get, expire_stale-Tidy}

-- The transitions of an alert.
pub data Edge : AlertState → AlertState → Type 0 where
  acknowledge : Edge active acknowledged
  resolve_active : Edge active resolved
  expire_active : Edge active expired
  suppress : Edge active suppressed
  resolve_acknowledged : Edge acknowledged resolved

-- An operation of the manager, with its clock.
pub data Op : Type 0 where
  create : Alert → ℕ → Op
  update : ℕ → Updates → ℕ → Op
  clear : ℕ → String → ℕ → Op
  sweep : ℕ → Op

unfoldable pub run_op : Op → Manager → Manager
run_op (create a mono) m = (create_alert a mono m).1
run_op (update k u now) m = (update_alert k u now m).1
run_op (clear k reason now) m = (resolve_alert k reason now m).1
run_op (sweep now) m = (expire_stale now m).1

unfoldable pub run : List Op → Manager → Manager
unfolding run_op
run [] m = m
run (o ∷ os) m = run os (run_op o m)

-- The operation does not make an alert with this identifier.
abbrev pub Spares : ℕ → Op → Type 0
Spares k (create a mono) = (a.alert_id == k) ≡ false
Spares k _ = Unit

allows-Edge : (s t : AlertState) → allows s t ≡ true → Edge s t
unfolding allows
allows-Edge active acknowledged e = acknowledge
allows-Edge active resolved e = resolve_active
allows-Edge active expired e = expire_active
allows-Edge active suppressed e = suppress
allows-Edge acknowledged resolved e = resolve_acknowledged
allows-Edge s t e = absurd (ground arith)

-- A state is kept or left by one transition.
abbrev pub Leads : AlertState → AlertState → Type 0
Leads s t = (s ≡ t) ⊎ Edge s t

join : {s t u : AlertState} → Edge s t → Edge t u → Edge s u
join acknowledge resolve_acknowledged = resolve_active
join resolve_active e = elim e [ ]
join expire_active e = elim e [ ]
join suppress e = elim e [ ]
join resolve_acknowledged e = elim e [ ]

Leads-trans : {s t u : AlertState} → Leads s t → Leads t u → Leads s u
Leads-trans (inl e) (inl f) = inl (e ∙ f)
Leads-trans {s} {t} {u} (inl e) (inr f) = inr (subst (λ x. Edge x u) (sym e) f)
Leads-trans {s} {t} {u} (inr e) (inl f) = inr (subst (λ x. Edge s x) f e)
Leads-trans (inr e) (inr f) = inr (join e f)

-- The alert under a key, in a state that the former one leads to.
abbrev pub Goes : AlertState → ℕ → Manager → Type 0
Goes s k m = (b : Alert) × (Dict.get k m.alerts ≡ some b) × Leads s b.state

-- A write of an alert that had the key, or of another.
save-Goes :
    (s : AlertState) (k : ℕ) (b : Alert) (m : Manager)
    → ((b.alert_id ≡ k) → Leads s b.state)
    → Goes s k m
    → Goes s k (save b m)
unfolding save
save-Goes s k b m f (a, e, leads) = elim (Bool-cases (b.alert_id == k)) [
  | inl same ↦ (
    b,
    Dict.get-put b.alert_id k b m.alerts ∙ ap (λ c. if c then some b else Dict.get k m.alerts) same,
    f ((nat_eqb_iff b.alert_id k).0 same),
  )
  | inr other ↦ (
    a,
    Dict.get-put b.alert_id k b m.alerts
        ∙ ap (λ c. if c then some b else Dict.get k m.alerts) other
        ∙ e,
    leads,
  )
]

apply-Leads :
    (u : Updates) (now : ℕ) (c : Alert)
    → permitted c.state u.state ≡ true
    → ((apply u now c).alert_id ≡ c.alert_id) × Leads c.state (apply u now c).state
unfolding apply permitted
apply-Leads u now c p = elim (Option-cases u.state) [
  | inl e ↦ (refl, inl (ground arith))
  | inr (s, e) ↦
      let new : s ≡ (apply u now c).state = ground arith in
      (refl, inr (subst (λ x. Edge c.state x) new (allows-Edge c.state s (ground arith))))
]

resolve-Leads :
    (reason : String) (now : ℕ) (c : Alert)
    → allows c.state resolved ≡ true
    → ((resolve reason now c).alert_id ≡ c.alert_id) × Leads c.state (resolve reason now c).state
unfolding resolve
resolve-Leads reason now c p = (refl, inr (allows-Edge c.state resolved p))

expire-Leads : (now : ℕ) (a : Alert) → is_stale now a ≡ true → Leads a.state (expire now a).state
unfolding expire is_stale
expire-Leads now a e =
    let is_active : a.state ≡ active = ground (arith, same_state_iff a.state active) in
    inr (subst (λ s. Edge s expired) (sym is_active) expire_active)

module _ (k : ℕ) (m : Manager) (t : Tidy m.alerts) (a : Alert)
    (held : Dict.get k m.alerts ≡ some a) where
  stays : Goes a.state k m
  stays = (a, held, inl refl)

  -- A new version `b` of the alert `c` found under `j`.
  version-Goes :
      (j : ℕ) (c b : Alert)
      → Dict.get j m.alerts ≡ some c
      → b.alert_id ≡ c.alert_id
      → Leads c.state b.state
      → Goes a.state k (save b m)
  version-Goes j c b found same leads =
      save-Goes a.state k b m
        (λ mine.
          let at_k : j ≡ k = sym (get-Tidy j c m.alerts t found) ∙ sym same ∙ mine in
          let ca : c ≡ a =
            ground (arith, subst (λ i. Dict.get i m.alerts ≡ some c) at_k found, held) in
          subst (λ (x : Alert). Leads x.state b.state) ca leads)
        stays

  create-Goes :
      (b : Alert) (mono : ℕ) → (b.alert_id == k) ≡ false → Goes a.state k (create_alert b mono m).1
  unfolding create_alert
  create-Goes b mono other = (
    a,
    ground (arith, Dict.get-put b.alert_id k (record b { state = active }) m.alerts),
    inl refl,
  )

  update-Goes : (j : ℕ) (u : Updates) (now : ℕ) → Goes a.state k (update_alert j u now m).1
  unfolding update_alert
  update-Goes j u now = elim (Option-cases (Dict.get j m.alerts)) [
    | inl e ↦ rw (e, update_alert) stays
    | inr (c, e) ↦ elim (Bool-cases (permitted c.state u.state)) [
      | inr no_edge ↦ rw (e, no_edge, update_alert) stays
      | inl edge ↦
          rw (e, edge, update_alert)
            (version-Goes j c (apply u now c) e (apply-Leads u now c edge).0
              (apply-Leads u now c edge).1)
    ]
  ]

  clear-Goes : (j : ℕ) (reason : String) (now : ℕ) → Goes a.state k (resolve_alert j reason now m).1
  unfolding resolve_alert
  clear-Goes j reason now = elim (Option-cases (Dict.get j m.alerts)) [
    | inl e ↦ rw (e, resolve_alert) stays
    | inr (c, e) ↦ elim (Bool-cases (allows c.state resolved)) [
      | inr no_edge ↦ rw (e, no_edge, resolve_alert) stays
      | inl edge ↦
          rw (e, edge, resolve_alert)
            (version-Goes j c (resolve reason now c) e (resolve-Leads reason now c edge).0
              (resolve-Leads reason now c edge).1)
    ]
  ]

  sweep-Goes : (now : ℕ) → Goes a.state k (expire_stale now m).1
  sweep-Goes now = elim (Bool-cases (is_stale now a)) [
    | inl e ↦ (expire now a, expire_stale-get now k m t ∙ rw (held, e) refl, expire-Leads now a e)
    | inr e ↦ (a, expire_stale-get now k m t ∙ rw (held, e) refl, inl refl)
  ]

op-Goes :
    (o : Op) (k : ℕ) (m : Manager) (a : Alert)
    → Tidy m.alerts
    → Dict.get k m.alerts ≡ some a
    → Spares k o
    → Goes a.state k (run_op o m)
unfolding run_op
op-Goes (create b mono) k m a t held spares = create-Goes k m t a held b mono spares
op-Goes (update j u now) k m a t held spares = update-Goes k m t a held j u now
op-Goes (clear j reason now) k m a t held spares = clear-Goes k m t a held j reason now
op-Goes (sweep now) k m a t held spares = sweep-Goes k m t a held now

op-Tidy : (o : Op) (m : Manager) → Tidy m.alerts → Tidy (run_op o m).alerts
unfolding run_op create_alert update_alert resolve_alert save
op-Tidy (create b mono) m t =
    elim (Bool-cases (is_suppressed b.alert_type b.affected_actor_ids mono m)) [
      | inl e ↦ rw (e, run_op, create_alert) t
      | inr e ↦ rw (e, run_op, create_alert) (put-Tidy (record b { state = active }) m.alerts t)
    ]
op-Tidy (update j u now) m t = elim (Option-cases (Dict.get j m.alerts)) [
  | inl e ↦ rw (e, run_op, update_alert) t
  | inr (a, e) ↦ elim (Bool-cases (permitted a.state u.state)) [
    | inl f ↦ rw (e, f, run_op, update_alert) (put-Tidy (apply u now a) m.alerts t)
    | inr f ↦ rw (e, f, run_op, update_alert) t
  ]
]
op-Tidy (clear j reason now) m t = elim (Option-cases (Dict.get j m.alerts)) [
  | inl e ↦ rw (e, run_op, resolve_alert) t
  | inr (a, e) ↦ elim (Bool-cases (allows a.state resolved)) [
    | inl f ↦ rw (e, f, run_op, resolve_alert) (put-Tidy (resolve reason now a) m.alerts t)
    | inr f ↦ rw (e, f, run_op, resolve_alert) t
  ]
]
op-Tidy (sweep now) m t = expire_stale-Tidy now m t

-- Over any run of operations that makes no alert with the identifier of a registered alert, the
-- alert stays registered, and its state is kept or changed to one that a single transition of the
-- state machine allows.
pub run-Leads :
    (os : List Op) (k : ℕ) (m : Manager) (a : Alert)
    → Tidy m.alerts
    → Dict.get k m.alerts ≡ some a
    → All (Spares k) os
    → Goes a.state k (run os m)
unfolding run
run-Leads [] k m a t held s = (a, held, inl refl)
run-Leads (o ∷ os) k m a t held s =
    let (b, found, leads) = op-Goes o k m a t held s.0 in
    let (c, found', leads') = run-Leads os k (run_op o m) b (op-Tidy o m t) found s.1 in
    (c, found', Leads-trans leads leads')
