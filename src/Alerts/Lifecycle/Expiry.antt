-- ===== src/Alerts/Lifecycle/Expiry.antt =====
-- `expire_stale` of services/alerts/marga_alerts/lifecycle.py.
use marga.Prelude.{
  ℕ, ◌≡◌, refl, ◌∙◌, ap, inl, inr, true, false, Option, none, some, List, [], ◌∷◌, arith,
  if◌then◌else◌, ◌==◌, nat_eq, nat_eqb_iff, Bool-cases, Option-cases,
}
use mathlib.Core.Option
use mathlib.Core.Path.{subst}
use marga.Prelude.Dict
use marga.Prelude.Dict.{Dict}
use marga.Alerts.Alert.{Alert}
use marga.Alerts.Lifecycle.{Manager, save, is_stale, expire, expire_from, expire_stale, values}

-- Each alert is under its own identifier, once.
unfoldable pub Tidy : Dict ℕ Alert → Type 0
Tidy [] = Unit
Tidy ((k, a) ∷ d) = (a.alert_id ≡ k) × (Dict.get k d ≡ none) × Tidy d

pub put-Tidy : (a : Alert) (d : Dict ℕ Alert) → Tidy d → Tidy (Dict.put a.alert_id a d)
unfolding Tidy Dict.put Dict.get
put-Tidy a [] t = (refl, refl, tt)
put-Tidy a ((j, b) ∷ d) (own, new, t) = elim (Bool-cases (j == a.alert_id)) [
  | inl e ↦ rw e (refl, ground (arith, nat_eqb_iff j a.alert_id), t)
  | inr n ↦ rw n (
    own,
    ground
        (arith, Dict.get-put a.alert_id j a d, nat_eqb_iff j a.alert_id, nat_eqb_iff a.alert_id j),
    put-Tidy a d t,
  )
]

pub get-Tidy :
    (k : ℕ) (a : Alert) (d : Dict ℕ Alert) → Tidy d → Dict.get k d ≡ some a → a.alert_id ≡ k
unfolding Tidy Dict.get
get-Tidy k a [] t e = ground arith
get-Tidy k a ((j, b) ∷ d) (own, new, t) e = ground (arith, get-Tidy k a d t, nat_eqb_iff j k)

-- What the loop leaves under a key, by what the snapshot held there.
after_loop : ℕ → Option Alert → Option Alert → Option Alert
after_loop now none old = old
after_loop now (some a) old = if is_stale now a then some (expire now a) else old

-- One round of the loop.
round-get :
    (now k : ℕ) (a : Alert) (m : Manager)
    → Dict.get k (if is_stale now a then save (expire now a) m else m).alerts ≡ (
        if a.alert_id == k
        then after_loop now (some a) (Dict.get k m.alerts)
        else Dict.get k m.alerts)
unfolding after_loop save expire
round-get now k a m = elim (Bool-cases (is_stale now a)) [
  | inl e ↦ rw e (Dict.get-put a.alert_id k (expire now a) m.alerts)
  | inr n ↦ rw n (ground arith)
]

expire_from-get :
    (now k : ℕ) (e : Dict ℕ Alert) (m : Manager)
    → Tidy e
    → Dict.get k (expire_from now (values e) m).1.alerts
      ≡ after_loop now (Dict.get k e) (Dict.get k m.alerts)
unfolding Tidy Dict.get expire_from after_loop
expire_from-get now k [] m t = refl
expire_from-get now k ((j, a) ∷ e) m (own, new, t) =
    let m' : Manager = if is_stale now a then save (expire now a) m else m in
    let ih = expire_from-get now k e m' t in
    let once = round-get now k a m in
    elim (Bool-cases (j == k)) [
      | inl same ↦
          let there : j ≡ k = (nat_eqb_iff j k).0 same in
          let gone : Dict.get k e ≡ none = subst (λ i. Dict.get i e ≡ none) there new in
          let mine : (a.alert_id == k) ≡ true = (nat_eqb_iff a.alert_id k).1 (own ∙ there) in
          rw same (
            ih
            ∙ ap (λ o. after_loop now o (Dict.get k m'.alerts)) gone
            ∙ once
            ∙ ap
                (λ b.
                  if b then after_loop now (some a) (Dict.get k m.alerts) else Dict.get k m.alerts)
                mine)
      | inr other ↦
          let not_mine : (a.alert_id == k) ≡ false =
            ground (arith, nat_eqb_iff a.alert_id k, nat_eqb_iff j k) in
          rw other (
            ih
            ∙ ap (λ o. after_loop now (Dict.get k e) o)
                (once
                  ∙ ap
                      (λ b.
                        if b
                        then after_loop now (some a) (Dict.get k m.alerts)
                        else Dict.get k m.alerts)
                      not_mine))
    ]

-- From a manager whose alerts are tidy, `expire_stale` replaces exactly the active alerts whose
-- deadline has passed by expired ones, and leaves every other alert as it was.
pub expire_stale-get :
    (now k : ℕ) (m : Manager)
    → Tidy m.alerts
    → Dict.get k (expire_stale now m).1.alerts
      ≡ Option.map (λ a. if is_stale now a then expire now a else a) (Dict.get k m.alerts)
unfolding expire_stale after_loop
expire_stale-get now k m t = elim (Option-cases (Dict.get k m.alerts)) [
  | inl e ↦ rw e (expire_from-get now k m.alerts m t ∙ ap (λ o. after_loop now o o) e)
  | inr (a, e) ↦ elim (Bool-cases (is_stale now a)) [
    | inl s ↦ rw (e, s) (expire_from-get now k m.alerts m t ∙ rw (e, s, after_loop) refl)
    | inr s ↦ rw (e, s) (expire_from-get now k m.alerts m t ∙ rw (e, s, after_loop) refl)
  ]
]

round-Tidy :
    (now : ℕ) (a : Alert) (m : Manager)
    → Tidy m.alerts
    → Tidy (if is_stale now a then save (expire now a) m else m).alerts
unfolding save expire
round-Tidy now a m t = elim (Bool-cases (is_stale now a)) [
  | inl e ↦ rw e (put-Tidy (expire now a) m.alerts t)
  | inr n ↦ rw n t
]

expire_from-Tidy :
    (now : ℕ) (xs : List Alert) (m : Manager) → Tidy m.alerts → Tidy (expire_from now xs m).1.alerts
unfolding expire_from
expire_from-Tidy now [] m t = t
expire_from-Tidy now (a ∷ xs) m t = expire_from-Tidy now xs _ (round-Tidy now a m t)

pub expire_stale-Tidy : (now : ℕ) (m : Manager) → Tidy m.alerts → Tidy (expire_stale now m).1.alerts
unfolding expire_stale
expire_stale-Tidy now m t = expire_from-Tidy now (values m.alerts) m t
