-- ===== src/Trust/Validator/Earned.antt =====
-- What a message must have shown to be trusted by services/trust/marga_trust/validator.py.
use marga.Prelude.{
  string_eq, ℕ, ◌+◌, ◌*◌, ◌≤◌, ◌<◌, ◌≡◌, sym, ap, ◌∙◌, ◌⊎◌, inl, inr, String, true, false, Option,
  none, some, ◌++◌, arith, Bool-cases, Option-cases,
}
use mathlib.Core.Path.{subst}
use marga.Trust.Replay
use marga.Trust.Replay.{second}
use marga.Trust.RateLimiter
use marga.Trust.RateLimiter.{TrustLevel, untrusted, low, medium, high, authority}
use marga.Trust.Credential.{Verifier, verify_identity, verify_emergency}
use marga.Trust.Plausibility.{Floats, PlausibilityChecker}
use marga.Trust.Validator.{SignedMessage, Clocks, is_untrusted, check_timestamps, has_level}
use marga.Trust.Validator.Scored.{IsScore, run_plausibility-IsScore}
use marga.Trust.Validator.Stages
use marga.Trust.Validator.Stages.{
  Standing, identified, denied, is_named, credentials, TrustValidator, TrustAssessment, request,
  motion_time, motion_at, motion_from, motion_of, adjust_trust, judge, meter, after_replay,
  validate,
}

check_timestamps-none :
    (issued expires now : ℕ)
    → check_timestamps issued expires now ≡ none
    → (now < expires) × (issued < expires) × (issued ≤ now + 5 * second)
unfolding check_timestamps
check_timestamps-none issued expires now h = ground arith

-- The credentials behind a standing that is not untrusted.
credentials-trusted :
    (k : Clocks) (sender : String) (ref : Option String) (v : Verifier)
    → is_untrusted (credentials k sender ref v).level ≡ false
    → ((credentials k sender ref v).level ≡ verify_identity sender k.identity v)
      × ((credentials k sender ref v).verified ≡ true)
      × ((ref ≡ none) ⊎ (verify_emergency sender ref k.emergency v ≡ true))
unfolding credentials identified
credentials-trusted k sender none v h = ground arith
credentials-trusted k sender (some role) v h = ground arith

module _ (fl : Floats) (fromisoformat : String → Option ℕ) where
  adjust_trust-level :
      (base : TrustLevel) (score : fl.F)
      → is_untrusted (adjust_trust fl fromisoformat base score) ≡ false
      → (is_untrusted base ≡ false)
        × ((adjust_trust fl fromisoformat base score ≡ base)
            ⊎ ((adjust_trust fl fromisoformat base score ≡ medium) × (has_level base ≡ true)))
        × (fl.at_most score (fl.tenths 2) ≡ false)
  unfolding adjust_trust
  adjust_trust-level untrusted score h = ground arith
  adjust_trust-level base score h = ground arith

  -- What a judged assessment rests on.
  abbrev Judged :
      SignedMessage fl.F
      → PlausibilityChecker fl
      → Standing
      → TrustAssessment fl fromisoformat
      → Type 0
  Judged m checker s a =
      (is_untrusted s.level ≡ false)
      × ((a.trust_level ≡ s.level) ⊎ ((a.trust_level ≡ medium) × (has_level s.level ≡ true)))
      × (fl.at_most a.plausibility_score (fl.tenths 2) ≡ false)
      × (a.credential_verified ≡ s.verified)
      × IsScore fl fromisoformat m checker a.plausibility_score

  judge-Judged :
      (m : SignedMessage fl.F) (s : Standing) (left : ℕ) (v : TrustValidator fl fromisoformat)
      {a : TrustAssessment fl fromisoformat}
      → (judge fl fromisoformat m s left v).0 ≡ some a
      → is_untrusted a.trust_level ≡ false
      → Judged m v.plausibility_checker s a
  unfolding judge
  judge-Judged m s left v {a} h trusted =
      elim (Option-cases (Stages.run_plausibility fl fromisoformat m v.plausibility_checker)) [
        | inl raised ↦ absurd (ground (arith, raised, h))
        | inr (w, scored) ↦
            let level : a.trust_level ≡ adjust_trust fl fromisoformat s.level w.0 =
              ground (arith, scored, h) in
            let score : a.plausibility_score ≡ w.0 = cc in
            let verified : a.credential_verified ≡ s.verified = ground (arith, scored, h) in
            let (base, kept, good) =
              adjust_trust-level s.level w.0 (ap is_untrusted (sym level) ∙ trusted) in
            (
              base,
              subst (λ l. (l ≡ s.level) ⊎ ((l ≡ medium) × (has_level s.level ≡ true))) (sym level)
                  kept,
              subst (λ x. fl.at_most x (fl.tenths 2) ≡ false) (sym score) good,
              verified,
              subst (IsScore fl fromisoformat m v.plausibility_checker) (sym score)
                  (run_plausibility-IsScore fl fromisoformat m v.plausibility_checker scored),
            )
      ]

  meter-Judged :
      (k : Clocks) (m : SignedMessage fl.F) (s : Standing) (v : TrustValidator fl fromisoformat)
      {a : TrustAssessment fl fromisoformat}
      → (meter fl fromisoformat k m s v).0 ≡ some a
      → is_untrusted a.trust_level ≡ false
      → ((RateLimiter.check m.sender_pseudonym s.level k.rate v.rate_limiter).0 ≡ true)
        × Judged m v.plausibility_checker s a
  unfolding meter
  meter-Judged k m s v {a} h trusted =
      let checked = RateLimiter.check m.sender_pseudonym s.level k.rate v.rate_limiter in
      elim (Bool-cases checked.0) [
        | inr limited ↦ absurd (ground (arith, limited, h, trusted))
        | inl allowed ↦ (
          allowed,
          judge-Judged m s (RateLimiter.get_remaining m.sender_pseudonym k.remaining checked.1).0
              (record v {
                rate_limiter =
                    (RateLimiter.get_remaining m.sender_pseudonym k.remaining checked.1).1;
                audit_log = v.audit_log ++ s.events;
              })
              {a = a} (ground (arith, allowed, h)) trusted,
        )
      ]

  -- The grounds of a trusted assessment `a` of the message `m`.
  pub record Earned (k : Clocks) (m : SignedMessage fl.F) (v : TrustValidator fl fromisoformat)
      (a : TrustAssessment fl fromisoformat) : Type 0 where
    pub current : (k.now < m.expires_at) × (m.issued_at ≤ k.now + 5 * second)
    pub once : (Replay.check (request fl fromisoformat k m) v.replay_cache).0 ≡ none
    pub registered :
        is_untrusted (verify_identity m.sender_pseudonym k.identity v.credential_verifier) ≡ false
    pub confirmed :
        (m.credential_ref ≡ none)
        ⊎ (verify_emergency m.sender_pseudonym m.credential_ref k.emergency v.credential_verifier
            ≡ true)
    pub metered :
        (RateLimiter.check m.sender_pseudonym
          (verify_identity m.sender_pseudonym k.identity v.credential_verifier)
          k.rate
          v.rate_limiter).0
        ≡ true
    pub scored : IsScore fl fromisoformat m v.plausibility_checker a.plausibility_score
    pub plausible : fl.at_most a.plausibility_score (fl.tenths 2) ≡ false
    pub level :
        (a.trust_level ≡ verify_identity m.sender_pseudonym k.identity v.credential_verifier)
        ⊎ ((a.trust_level ≡ medium)
            × (has_level (verify_identity m.sender_pseudonym k.identity v.credential_verifier)
                ≡ true))
    pub verified : a.credential_verified ≡ true

  -- A message is trusted only if it is current, its nonce is new, its sender is registered with a
  -- credential that gives a level, the role that it claims, if it does, is confirmed, its sender is within
  -- his rate, and its score is over a fifth. The score is that of the plausibility checker for the motion
  -- that the payload tells, or a half where it names no actor with a position. The level is that of the
  -- credential, or `MEDIUM` in place of `HIGH` or `AUTHORITY`.
  pub validate-Earned :
      (k : Clocks) (m : SignedMessage fl.F) (v : TrustValidator fl fromisoformat)
      {a : TrustAssessment fl fromisoformat}
      → (validate fl fromisoformat k m v).0 ≡ some a
      → is_untrusted a.trust_level ≡ false
      → Earned k m v a
  unfolding validate after_replay
  validate-Earned k m v {a} h trusted =
      elim (Option-cases (check_timestamps m.issued_at m.expires_at k.now)) [
        | inr (r, old) ↦ absurd (ground (arith, old, h, trusted))
        | inl current ↦
            let asked = Replay.check (request fl fromisoformat k m) v.replay_cache in
            elim (Option-cases asked.0) [
              | inr (r, replayed) ↦ absurd (ground (arith, current, replayed, h, trusted))
              | inl new ↦
                  let s = credentials k m.sender_pseudonym m.credential_ref v.credential_verifier in
                  let v' : TrustValidator fl fromisoformat = record v { replay_cache = asked.1 } in
                  let judged : (meter fl fromisoformat k m s v').0 ≡ some a =
                    ground (arith, current, new, h) in
                  let (allowed, j) = meter-Judged k m s v' {a = a} judged trusted in
                  let (base, level, good, verified, score) = j in
                  let (same, known, role) =
                    credentials-trusted k m.sender_pseudonym m.credential_ref v.credential_verifier
                      base in
                  let (alive, ordered, started) =
                    check_timestamps-none m.issued_at m.expires_at k.now current in
                  record {
                    current = (alive, started);
                    once = new;
                    registered = ap is_untrusted (sym same) ∙ base;
                    confirmed = role;
                    metered =
                        ap (λ l. (RateLimiter.check m.sender_pseudonym l k.rate v.rate_limiter).0)
                          (sym same)
                        ∙ allowed;
                    scored = score;
                    plausible = good;
                    level =
                        subst
                          (λ l.
                            (a.trust_level ≡ l) ⊎ ((a.trust_level ≡ medium) × (has_level l ≡ true)))
                          same level;
                    verified = verified ∙ known;
                  }
            ]
      ]
