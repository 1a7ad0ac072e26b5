-- ===== src/Trust/Validator/Scored.antt =====
-- The score that services/trust/marga_trust/validator.py gives a message, by the motion that it tells.
use marga.Prelude.{
  refl, List, string_eq, ℕ, ◌≡◌, sym, ap, ◌∙◌, ◌⊎◌, inl, inr, String, Option, none, some, arith,
  Option-cases,
}
use mathlib.Core.Path.{subst}
use marga.Prelude.Dict
use marga.Trust.Plausibility
use marga.Trust.Plausibility.{Floats, Motion, Anomaly, PlausibilityChecker}
use marga.Trust.Validator.{Payload, or_else, actor_type_of, first_stamp, SignedMessage}
use marga.Trust.Validator.Stages
use marga.Trust.Validator.Stages.{
  Standing, identified, denied, is_named, credentials, TrustValidator, TrustAssessment, request,
  motion_time, motion_at, motion_from, motion_of, adjust_trust, judge, meter, after_replay,
  validate,
}

module _ (fl : Floats) (fromisoformat : String → Option ℕ) where
  -- The message tells this motion.
  pub record Tells (m : SignedMessage fl.F) (motion : Motion fl) : Type 0 where
    pub body : Payload fl.F
    pub carried : m.payload ≡ some body
    pub actor : body.actor_id ≡ some motion.actor_id
    pub lat : body.lat ≡ some motion.lat
    pub lon : body.lon ≡ some motion.lon
    pub speed : motion.speed_mps ≡ or_else body.speed_mps (fl.tenths 0)
    pub kind : motion.actor_type ≡ actor_type_of (or_else body.actor_type "CAR")
    pub segment : motion.road_segment_id ≡ body.road_segment_id
    pub time :
        motion_time fl fromisoformat m (first_stamp body.ts body.timestamp) ≡ some motion.timestamp

  -- The message names no actor with a position.
  abbrev pub Silent : SignedMessage fl.F → Type 0
  Silent m =
      (m.payload ≡ none)
      ⊎ ((p : Payload fl.F) × (m.payload ≡ some p)
          × ((p.actor_id ≡ none) ⊎ ((p.lat ≡ none) ⊎ (p.lon ≡ none))))

  abbrev Spoken : SignedMessage fl.F → Option (Motion fl) → Type 0
  Spoken m none = Silent m
  Spoken m (some motion) = Tells m motion

  motion_from-Spoken :
      (m : SignedMessage fl.F) (p : Payload fl.F) (a : Option String) (b c : Option fl.F)
      (o : Option (Motion fl))
      → m.payload ≡ some p
      → p.actor_id ≡ a
      → p.lat ≡ b
      → p.lon ≡ c
      → motion_from fl fromisoformat m p a b c ≡ some o
      → Spoken m o
  unfolding motion_from
  motion_from-Spoken m p none b c o q ea eb ec e =
      subst (Spoken m) (Dict.some_injective e) (inr (p, q, inl ea))
  motion_from-Spoken m p (some a) none c o q ea eb ec e =
      subst (Spoken m) (Dict.some_injective e) (inr (p, q, inr (inl eb)))
  motion_from-Spoken m p (some a) (some b) none o q ea eb ec e =
      subst (Spoken m) (Dict.some_injective e) (inr (p, q, inr (inr ec)))
  motion_from-Spoken m p (some a) (some b) (some c) o q ea eb ec e =
      elim (Option-cases (motion_time fl fromisoformat m (first_stamp p.ts p.timestamp))) [
        | inl refused ↦ absurd (ground (arith, refused, e))
        | inr (t, read) ↦
            let made = ap (motion_at fl fromisoformat p a b c) (sym read) ∙ e in
            subst (Spoken m) (Dict.some_injective made) (record {
              body = p;
              carried = q;
              actor = ea;
              lat = eb;
              lon = ec;
              speed = refl;
              kind = refl;
              segment = refl;
              time = read;
            })
      ]

  motion_of-Spoken :
      (m : SignedMessage fl.F) (o : Option (Motion fl))
      → motion_of fl fromisoformat m m.payload ≡ some o
      → Spoken m o
  unfolding motion_of
  motion_of-Spoken m o e = elim (Option-cases m.payload) [
    | inl empty ↦
        subst (Spoken m) (Dict.some_injective (ap (motion_of fl fromisoformat m) (sym empty) ∙ e))
          (inl empty)
    | inr (p, full) ↦
        motion_from-Spoken m p p.actor_id p.lat p.lon o full refl refl refl
          (ap (motion_of fl fromisoformat m) (sym full) ∙ e)
  ]

  -- The score of a message: that of the checker for the motion that it tells, or a half if it tells none.
  abbrev pub IsScore : SignedMessage fl.F → PlausibilityChecker fl → fl.F → Type 0
  IsScore m checker score =
      (Silent m × (score ≡ fl.tenths 5))
      ⊎ ((motion : Motion fl) × Tells m motion
          × (score ≡ (Plausibility.check fl motion checker).0.0))

  pub run_plausibility-IsScore :
      (m : SignedMessage fl.F) (checker : PlausibilityChecker fl)
      {w : fl.F × List Anomaly × PlausibilityChecker fl}
      → Stages.run_plausibility fl fromisoformat m checker ≡ some w
      → IsScore m checker w.0
  unfolding Stages.run_plausibility
  run_plausibility-IsScore m checker {w} e =
      elim (Option-cases (motion_of fl fromisoformat m m.payload)) [
        | inl raised ↦ absurd (ground (arith, raised, e))
        | inr (none, said) ↦ inl (motion_of-Spoken m none said, ground (arith, said, e))
        | inr (some motion, said) ↦
            inr (motion, motion_of-Spoken m (some motion) said, ground (arith, said, e))
      ]
