-- ===== src/Scenario/Failures/Worst.antt =====
-- services/scenario-service/app/failure_injector.py: the worst of several failures of the positioning.
use mathlib.Core.List.{Permᴰ}
use marga.Prelude.{
  ℕ, ◌≤◌, ◌<◌, ◌≡◌, refl, sym, ◌∙◌, ap, true, inl, inr, String, Option, List, [], ◌∷◌, min, max,
  ltb, ltb→lt, lt→ltb, if◌then◌else◌, Bool-cases, arith,
}
use marga.Scenario.Failures.{
  FailureEffect, PositionEstimate, degrades, uncertainty_of, new_confidence, worsen, worst_of,
  resolved, apply_gps_degradation,
}

-- The uncertainties of the effects on an actor.
unfoldable pub uncertainties : String → List FailureEffect → List ℕ
uncertainties actor [] = []
uncertainties actor (e ∷ es) =
    let rest = uncertainties actor es in if degrades actor e then uncertainty_of e ∷ rest else rest

unfoldable pub greatest : ℕ → List ℕ → ℕ
greatest u [] = u
greatest u (v ∷ vs) = greatest (max u v) vs

-- The confidence under a worst uncertainty, of a position with a confidence and an own uncertainty.
abbrev pub level : ℕ → ℕ → ℕ → ℕ
level confidence own worst = if ltb own worst then new_confidence confidence worst else confidence

level_least :
    (c own u v : ℕ) → u < v → min (level c own u) (new_confidence c v) ≡ new_confidence c v
level_least c own u v more = elim (Bool-cases (ltb own u)) [
  | inl worse ↦ rw worse (omega arith)
  | inr not_worse ↦ rw not_worse (omega arith)
]

level_own : (c own : ℕ) → level c own own ≡ c
level_own c own = ground arith

worsen-level :
    (c own u v : ℕ) → own ≤ u → worsen c v (u, level c own u) ≡ (max u v, level c own (max u v))
unfolding worsen
worsen-level c own u v h = elim (Bool-cases (ltb u v)) [
  | inl more ↦
      let less : u < v = ltb→lt u v more in
      let top : max u v ≡ v = omega (arith, less) in
      let worse : ltb own v ≡ true = lt→ltb own v (omega (arith, less)) in
      rw (top, more, worse, level_least c own u v less) refl
  | inr no_more ↦ let top : max u v ≡ u = ground (arith, lt→ltb u v) in rw (top, no_more) refl
]

worst_of-level :
    (actor : String) (c own u : ℕ) (es : List FailureEffect)
    → own ≤ u
    → worst_of actor c es (u, level c own u)
      ≡ (greatest u (uncertainties actor es), level c own (greatest u (uncertainties actor es)))
unfolding worst_of uncertainties greatest
worst_of-level actor c own u [] h = refl
worst_of-level actor c own u (e ∷ es) h = elim (Bool-cases (degrades actor e)) [
  | inl hit ↦
      rw (hit, worsen-level c own u (uncertainty_of e) h)
        (worst_of-level actor c own (max u (uncertainty_of e)) es (omega (arith, h)))
  | inr other ↦ rw other (worst_of-level actor c own u es h)
]

-- The greatest uncertainty so far, after one more effect.
abbrev grown : String → ℕ → FailureEffect → ℕ
grown actor u e = if degrades actor e then max u (uncertainty_of e) else u

greatest-grown :
    (actor : String) (u : ℕ) (e : FailureEffect) (es : List FailureEffect)
    → greatest u (uncertainties actor (e ∷ es))
      ≡ greatest (grown actor u e) (uncertainties actor es)
unfolding uncertainties greatest
greatest-grown actor u e es = elim (Bool-cases (degrades actor e)) [
  | inl hit ↦ rw hit refl
  | inr other ↦ rw other refl
]

grown-swap :
    (actor : String) (u : ℕ) (a b : FailureEffect)
    → grown actor (grown actor u a) b ≡ grown actor (grown actor u b) a
grown-swap actor u a b = elim (Bool-cases (degrades actor a)) [
  | inr other ↦ rw other refl
  | inl hit ↦ elim (Bool-cases (degrades actor b)) [
    | inr other ↦ rw (hit, other) refl
    | inl both ↦ rw (hit, both) (omega arith)
  ]
]

greatest-Perm :
    (actor : String) {es fs : List FailureEffect} (u : ℕ)
    → Permᴰ es fs
    → greatest u (uncertainties actor es) ≡ greatest u (uncertainties actor fs)
greatest-Perm actor u Permᴰ.nil = refl
greatest-Perm actor u (Permᴰ.cons {a} {b} {l₁} {l₂} e d) =
    greatest-grown actor u a l₁
    ∙ greatest-Perm actor (grown actor u a) d
    ∙ ap (λ x. greatest (grown actor u x) (uncertainties actor l₂)) e
    ∙ sym (greatest-grown actor u b l₂)
greatest-Perm actor u (Permᴰ.swap {a} {b} {a' = c} {b' = d} {l} ad bc) =
    greatest-grown actor u a (b ∷ l)
    ∙ greatest-grown actor (grown actor u a) b l
    ∙ ap (λ w. greatest w (uncertainties actor l)) (grown-swap actor u a b)
    ∙ ap (λ x. greatest (grown actor (grown actor u x) a) (uncertainties actor l)) bc
    ∙ ap (λ x. greatest (grown actor (grown actor u c) x) (uncertainties actor l)) ad
    ∙ sym (greatest-grown actor (grown actor u c) d l)
    ∙ sym (greatest-grown actor u c (d ∷ l))
greatest-Perm actor u (Permᴰ.trans d e) = greatest-Perm actor u d ∙ greatest-Perm actor u e

-- Whatever the order of the effects, the position that an actor gets has the greatest of its own uncertainty
-- and those of the effects on the actor. Where that is not its own, its confidence is less by a hundredth of
-- it, by one at most and not below nought; else the confidence stays.
pub apply_gps_degradation-worst :
    (p : PositionEstimate) (effects : List FailureEffect) {ordered : List FailureEffect}
    (actor : Option String)
    → Permᴰ effects ordered
    → let worst = greatest p.uncertainty_m (uncertainties (resolved actor p) effects) in
      apply_gps_degradation p ordered actor
      ≡ record p { uncertainty_m = worst; confidence = level p.confidence p.uncertainty_m worst }
unfolding apply_gps_degradation
apply_gps_degradation-worst p effects {ordered} actor order =
    ap (λ (w : ℕ × ℕ). record p { uncertainty_m = w.0; confidence = w.1 })
      (ap (λ k. worst_of (resolved actor p) p.confidence ordered (p.uncertainty_m, k))
          (sym (level_own p.confidence p.uncertainty_m))
        ∙ worst_of-level (resolved actor p) p.confidence p.uncertainty_m p.uncertainty_m ordered
            (omega arith)
        ∙ ap (λ w. (w, level p.confidence p.uncertainty_m w))
            (sym (greatest-Perm (resolved actor p) p.uncertainty_m order)))
