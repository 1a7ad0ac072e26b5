-- ===== src/Alerts/Lifecycle/Hysteresis.antt =====
-- The cooldown of services/alerts/marga_alerts/lifecycle.py: no alert fires twice within it.
use mathlib.Core.Path.{subst}
use marga.Prelude.{
  ℕ, ◌-◌, ◌≤◌, ◌≡◌, refl, ◌∙◌, ap, inl, inr, String, Bool, true, false, some, List, [], ◌∷◌, arith,
  if◌then◌else◌, ◌==◌, string_eq, Bool-cases, All,
}
use text.Mathlib.TextEquality.{eq_iff}
use marga.Alerts.Alert.{Alert, active}
use marga.Alerts.Lifecycle.{
  Manager, HysteresisKey, hysteresis_key, elem, is_subset, same_key, last_fire, set_fire, cooldown,
  is_suppressed, create_alert, update_alert, resolve_alert, expire_stale, expire_from, save,
  is_stale, expire, values,
}
use marga.Alerts.Lifecycle.Transitions.{Op, create, update, clear, sweep, run_op, run}

-- `xs` holds what `ys` holds.
elem-subset :
    (s : String) (xs ys : List String)
    → is_subset xs ys ≡ true
    → elem s xs ≡ true
    → elem s ys ≡ true
unfolding elem is_subset
elem-subset s [] ys h e = absurd (ground arith)
elem-subset s (x ∷ xs) ys h e = elim (Bool-cases (x == s)) [
  | inl same ↦
      let at_s : x ≡ s = (eq_iff x s).0 same in subst (λ z. elem z ys ≡ true) at_s (ground arith)
  | inr other ↦ elem-subset s xs ys (ground arith) (ground arith)
]

subset_trans :
    (xs ys zs : List String)
    → is_subset xs ys ≡ true
    → is_subset ys zs ≡ true
    → is_subset xs zs ≡ true
unfolding is_subset
subset_trans [] ys zs h k = refl
subset_trans (x ∷ xs) ys zs h k = ground (arith, elem-subset x ys zs k, subset_trans xs ys zs)

same_key_sym : (j k : HysteresisKey) → same_key j k ≡ true → same_key k j ≡ true
unfolding same_key
same_key_sym (t, xs) (u, ys) h = ground (arith, eq_iff t u, eq_iff u t)

same_key_trans :
    (i j k : HysteresisKey) → same_key i j ≡ true → same_key j k ≡ true → same_key i k ≡ true
unfolding same_key
same_key_trans (t, xs) (u, ys) (v, zs) h g =
    ground (arith, eq_iff t u, eq_iff u v, eq_iff t v, subset_trans xs ys zs, subset_trans zs ys xs)

no_key :
    (j k : HysteresisKey) {b : Bool}
    → (same_key j k ≡ true → b ≡ true)
    → b ≡ false
    → same_key j k ≡ false
no_key j k f e = ground (arith, f)

last_fire-set :
    (j k : HysteresisKey) (t : ℕ) (h : List (HysteresisKey × ℕ))
    → last_fire k (set_fire j t h) ≡ (if same_key j k then some t else last_fire k h)
unfolding last_fire set_fire
last_fire-set j k t [] = refl
last_fire-set j k t ((i, u) ∷ h) = elim (Bool-cases (same_key i j)) [
  | inl ij ↦ elim (Bool-cases (same_key j k)) [
    | inl jk ↦ rw (ij, jk, same_key_trans i j k ij jk) refl
    | inr jk ↦ rw (ij, jk, no_key i k (λ ik. same_key_trans j i k (same_key_sym i j ij) ik) jk) refl
  ]
  | inr ij ↦ elim (Bool-cases (same_key i k)) [
    | inl ik ↦ rw (ij, ik, no_key j k (λ jk. same_key_trans i k j ik (same_key_sym j k jk)) ij) refl
    | inr ik ↦ rw (ij, ik) (last_fire-set j k t h)
  ]
]

-- An operation that is no creation leaves these as they are; no operation changes the cooldowns.
abbrev Settings : Manager → Manager → Type 0
Settings m m' = (m'.cooldowns ≡ m.cooldowns) × (m'.default_cooldown_s ≡ m.default_cooldown_s)

expire_from-kept :
    (now : ℕ) (xs : List Alert) (m : Manager)
    → Settings m (expire_from now xs m).1 × ((expire_from now xs m).1.hysteresis ≡ m.hysteresis)
unfolding expire_from save
expire_from-kept now [] m = ((refl, refl), refl)
expire_from-kept now (a ∷ xs) m = elim (Bool-cases (is_stale now a)) [
  | inl e ↦ rw (e, save) (expire_from-kept now xs (save (expire now a) m))
  | inr e ↦ rw e (expire_from-kept now xs m)
]

-- The key has fired at `s` or later.
abbrev Fired : HysteresisKey → ℕ → Manager → Type 0
Fired k s m = (t : ℕ) × (last_fire k m.hysteresis ≡ some t) × (s ≤ t)

-- The operation, if it is a creation, is made at `s` or later.
abbrev pub Since : ℕ → Op → Type 0
Since s (create a mono) = s ≤ mono
Since s _ = Unit

run_op-Settings : (o : Op) (m : Manager) → Settings m (run_op o m)
unfolding run_op create_alert update_alert resolve_alert expire_stale save
run_op-Settings (create a mono) m = ground arith
run_op-Settings (update j u now) m = ground arith
run_op-Settings (clear j reason now) m = ground arith
run_op-Settings (sweep now) m = (expire_from-kept now (values m.alerts) m).0

create-Fired :
    (a : Alert) (mono : ℕ) (k : HysteresisKey) (s : ℕ) (m : Manager)
    → s ≤ mono
    → Fired k s m
    → Fired k s (create_alert a mono m).1
unfolding create_alert
create-Fired a mono k s m later (t, e, le) =
    elim (Bool-cases (is_suppressed a.alert_type a.affected_actor_ids mono m)) [
      | inl held ↦ rw (held, create_alert) (t, e, le)
      | inr new ↦ elim (Bool-cases (same_key (hysteresis_key a) k)) [
        | inl same ↦
            rw (new, create_alert)
              (mono, last_fire-set (hysteresis_key a) k mono m.hysteresis ∙ rw same refl, later)
        | inr other ↦
            rw (new, create_alert)
              (t, last_fire-set (hysteresis_key a) k mono m.hysteresis ∙ rw other e, le)
      ]
    ]

run_op-Fired :
    (o : Op) (k : HysteresisKey) (s : ℕ) (m : Manager)
    → Since s o
    → Fired k s m
    → Fired k s (run_op o m)
unfolding run_op update_alert resolve_alert expire_stale save
run_op-Fired (create a mono) k s m later f = create-Fired a mono k s m later f
run_op-Fired (update j u now) k s m later (t, e, le) = (t, ground arith, le)
run_op-Fired (clear j reason now) k s m later (t, e, le) = (t, ground arith, le)
run_op-Fired (sweep now) k s m later (t, e, le) =
    (t, ap (last_fire k) (expire_from-kept now (values m.alerts) m).1 ∙ e, le)

run-Fired :
    (os : List Op) (k : HysteresisKey) (s : ℕ) (m : Manager)
    → All (Since s) os
    → Fired k s m
    → Settings m (run os m) × Fired k s (run os m)
unfolding run
run-Fired [] k s m later f = ((refl, refl), f)
run-Fired (o ∷ os) k s m later f =
    let (set, f') = run-Fired os k s (run_op o m) later.1 (run_op-Fired o k s m later.0 f) in
    let one = run_op-Settings o m in ((set.0 ∙ one.0, set.1 ∙ one.1), f')

accepted-new :
    (a : Alert) (mono : ℕ) (m : Manager)
    → (create_alert a mono m).0.state ≡ active
    → is_suppressed a.alert_type a.affected_actor_ids mono m ≡ false
unfolding create_alert
accepted-new a mono m e = ground arith

accepted-Fired :
    (a : Alert) (mono : ℕ) (m : Manager) (k : HysteresisKey)
    → (create_alert a mono m).0.state ≡ active
    → same_key (hysteresis_key a) k ≡ true
    → Fired k mono (create_alert a mono m).1 × Settings m (create_alert a mono m).1
unfolding create_alert
accepted-Fired a mono m k e same =
    rw (accepted-new a mono m e, create_alert)
      (
        (mono, last_fire-set (hysteresis_key a) k mono m.hysteresis ∙ rw same refl, omega arith),
        (refl, refl),
      )

not_suppressed :
    (b : Alert) (s t : ℕ) (m : Manager)
    → is_suppressed b.alert_type b.affected_actor_ids t m ≡ false
    → Fired (hysteresis_key b) s m
    → cooldown b.alert_type m ≤ t - s
unfolding is_suppressed
not_suppressed b s t m e (u, f, le) = ground arith

-- Two alerts of the same type and the same set of actors that are both accepted are a cooldown
-- apart, whatever was done between, as long as the monotonic clock does not run back.
pub create-cooldown :
    (a b : Alert) (os : List Op) (m : Manager) (s t : ℕ)
    → (create_alert a s m).0.state ≡ active
    → All (Since s) os
    → same_key (hysteresis_key a) (hysteresis_key b) ≡ true
    → (create_alert b t (run os (create_alert a s m).1)).0.state ≡ active
    → cooldown a.alert_type m ≤ t - s
unfolding cooldown same_key
create-cooldown a b os m s t first later same second =
    let k = hysteresis_key b in
    let (f, set) = accepted-Fired a s m k first same in
    let (set', f') = run-Fired os k s (create_alert a s m).1 later f in
    let apart =
      not_suppressed b s t (run os (create_alert a s m).1) (accepted-new b t _ second) f' in
    ground (arith, eq_iff a.alert_type b.alert_type)
