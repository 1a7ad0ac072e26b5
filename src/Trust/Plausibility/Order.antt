-- ===== src/Trust/Plausibility/Order.antt =====
-- The times that services/trust/marga_trust/plausibility.py keeps for an actor.
use marga.Prelude.{
  ℕ, ◌≤◌, ◌<◌, ◌≡◌, refl, sym, ap, ◌∙◌, inl, inr, String, none, some, List, [], ◌∷◌, ◌++◌, arith,
  ltb, Bool-cases, Option-cases, ◌==◌, string_eq,
}
use marga.Prelude.Dict
use marga.Trust.Plausibility
use marga.Trust.Plausibility.{
  Floats, ActorSnapshot, PlausibilityChecker, Motion, history_check, speed_sanity, check,
  snapshot_of, backwards_timestamp,
}

module _ (fl : Floats) where
  history_check-ordered :
      (threshold : fl.F) (prev : ActorSnapshot fl) (m : Motion fl) (v w : Plausibility.Verdict fl)
      → history_check fl threshold (some prev) m v ≡ some w
      → prev.timestamp ≤ m.timestamp
  unfolding history_check
  history_check-ordered threshold prev m v w h = ground (arith, h)

  history_check-none :
      (threshold : fl.F) (prev : ActorSnapshot fl) (m : Motion fl) (v : Plausibility.Verdict fl)
      → m.timestamp < prev.timestamp
      → history_check fl threshold (some prev) m v ≡ none
  unfolding history_check
  history_check-none threshold prev m v h = ground (arith, h)

  -- An actor is recorded, at time `t` or later.
  abbrev pub KnownSince : String → ℕ → PlausibilityChecker fl → Type 0
  KnownSince a t c = (p : ActorSnapshot fl) × (Dict.get a c.snapshots ≡ some p) × (t ≤ p.timestamp)

  -- The observations checked one after the other.
  unfoldable pub run : List (Motion fl) → PlausibilityChecker fl → PlausibilityChecker fl
  run [] c = c
  run (m ∷ ms) c = run ms (check fl m c).1

  check-recorded :
      (m : Motion fl) (c : PlausibilityChecker fl)
      → KnownSince m.actor_id m.timestamp (check fl m c).1
  unfolding check
  check-recorded m c =
      let v : Plausibility.Verdict fl = speed_sanity fl m (fl.tenths 10, []) in
      elim (Option-cases
        (history_check fl c.teleport_threshold_m (Dict.get m.actor_id c.snapshots) m v)) [
          | inr (w, passed) ↦ (
            snapshot_of fl m,
            rw (passed, check) (Dict.get-put_self m.actor_id (snapshot_of fl m) c.snapshots),
            omega arith,
          )
          | inl late ↦ elim (Option-cases (Dict.get m.actor_id c.snapshots)) [
            | inl new ↦ absurd (ground (arith, late, new))
            | inr (p, old) ↦ elim (Bool-cases (ltb m.timestamp p.timestamp)) [
              | inl before ↦ (p, rw (late, check) old, ground (arith, before))
              | inr after ↦ absurd (ground (arith, late, old, after))
            ]
          ]
        ]

  check-KnownSince :
      (m : Motion fl) (a : String) (t : ℕ) (c : PlausibilityChecker fl)
      → KnownSince a t c
      → KnownSince a t (check fl m c).1
  unfolding check
  check-KnownSince m a t c (p, there, since) =
      let v : Plausibility.Verdict fl = speed_sanity fl m (fl.tenths 10, []) in
      elim (Option-cases
        (history_check fl c.teleport_threshold_m (Dict.get m.actor_id c.snapshots) m v)) [
          | inl late ↦ (p, rw (late, check) there, since)
          | inr (w, passed) ↦ elim (Bool-cases (m.actor_id == a)) [
            | inr other ↦ (
              p,
              rw (passed, check)
                  (Dict.get-put_other m.actor_id a (snapshot_of fl m) c.snapshots other ∙ there),
              since,
            )
            | inl same ↦
                let own : m.actor_id ≡ a = (string_eq.eqb_iff m.actor_id a).0 same in
                let found : Dict.get m.actor_id c.snapshots ≡ some p =
                  ap (λ x. Dict.get x c.snapshots) own ∙ there in
                let later : p.timestamp ≤ m.timestamp =
                  history_check-ordered c.teleport_threshold_m p m v w (
                    ap (λ o. history_check fl c.teleport_threshold_m o m v) (sym found) ∙ passed) in
                (
                  snapshot_of fl m,
                  rw (passed, check)
                      (ap (λ x. Dict.get x (Dict.put m.actor_id (snapshot_of fl m) c.snapshots))
                          (sym own)
                        ∙ Dict.get-put_self m.actor_id (snapshot_of fl m) c.snapshots),
                  omega (arith, since, later),
                )
          ]
        ]

  run-KnownSince :
      (ms : List (Motion fl)) (a : String) (t : ℕ) (c : PlausibilityChecker fl)
      → KnownSince a t c
      → KnownSince a t (run ms c)
  unfolding run
  run-KnownSince [] a t c k = k
  run-KnownSince (m ∷ ms) a t c k =
      run-KnownSince ms a t (check fl m c).1 (check-KnownSince m a t c k)

  -- Once an observation of an actor was checked, whatever its verdict, an older one of that actor is
  -- reported as running back in time, whatever was checked in between: its score is that of its speed
  -- times zero, and it changes nothing.
  pub older-refused :
      (first : Motion fl) (between : List (Motion fl)) (late : Motion fl)
      (c : PlausibilityChecker fl)
      → late.actor_id ≡ first.actor_id
      → late.timestamp < first.timestamp
      → let c' = run between (check fl first c).1 in
        let sane = speed_sanity fl late (fl.tenths 10, []) in
        check fl late c' ≡ ((fl.mul sane.0 (fl.tenths 0), sane.1 ++ backwards_timestamp ∷ []), c')
  unfolding check
  older-refused first between late c same older =
      let c' = run between (check fl first c).1 in
      let sane = speed_sanity fl late (fl.tenths 10, []) in
      let (p, there, since) =
        run-KnownSince between first.actor_id first.timestamp (check fl first c).1
          (check-recorded first c) in
      let found : Dict.get late.actor_id c'.snapshots ≡ some p =
        ap (λ x. Dict.get x c'.snapshots) same ∙ there in
      let refused : history_check fl c'.teleport_threshold_m (Dict.get late.actor_id c'.snapshots)
            late sane
          ≡ none =
        ap (λ o. history_check fl c'.teleport_threshold_m o late sane) found
        ∙ history_check-none c'.teleport_threshold_m p late sane (omega (arith, since, older)) in
      rw (refused, check) refl
