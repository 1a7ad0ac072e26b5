-- ===== src/Trust/Validator/Once.antt =====
-- A message that services/trust/marga_trust/validator.py let past its replay cache is never trusted again.
use marga.Prelude.{
  ℕ, ◌≡◌, refl, sym, ap, ◌∙◌, inl, inr, String, Bool, true, false, Option, none, some, List, [],
  ◌∷◌, ◌++◌, arith, Bool-cases, Option-cases, if◌then◌else◌,
}
use marga.Trust.Replay
use marga.Trust.Replay.{ReplayCache, Clock, Request, key}
use marga.Trust.Replay.Protection.{Later, InOrder, replay-refused}
use marga.Trust.RateLimiter
use marga.Trust.Plausibility.{Floats}
use marga.Trust.Validator.{SignedMessage, Clocks, is_untrusted, check_timestamps}
use marga.Trust.Validator.Stages
use marga.Trust.Validator.Stages.{
  TrustValidator, TrustAssessment, request, meter, judge, after_replay, validate,
}
use marga.Trust.Validator.Earned.{validate-Earned}

module _ (fl : Floats) (fromisoformat : String → Option ℕ) where
  -- A call of `validate`.
  abbrev pub Call : Type 0
  Call = Clocks × SignedMessage fl.F

  -- The validator after some calls.
  unfoldable pub run : List Call → TrustValidator fl fromisoformat → TrustValidator fl fromisoformat
  run [] v = v
  run (c ∷ cs) v = run cs (validate fl fromisoformat c.0 c.1 v).1

  abbrev pub asks : Call → Request
  asks c = request fl fromisoformat c.0 c.1

  -- Whether a call reaches the replay cache.
  abbrev reaches : Call → Bool
  reaches c = elim (check_timestamps c.1.issued_at c.1.expires_at c.0.now) [
    | none ↦ true
    | some r ↦ false
  ]

  reaches_current :
      (c : Call) → check_timestamps c.1.issued_at c.1.expires_at c.0.now ≡ none → reaches c ≡ true
  reaches_current c h = ground (arith, h)

  -- What the calls ask the replay cache.
  unfoldable pub asked : List Call → List Request
  asked [] = []
  asked (c ∷ cs) = let rest = asked cs in if reaches c then asks c ∷ rest else rest

  judge-cache :
      (m : SignedMessage fl.F) (s : Stages.Standing) (left : ℕ)
      (v : TrustValidator fl fromisoformat)
      → (judge fl fromisoformat m s left v).1.replay_cache ≡ v.replay_cache
  unfolding judge
  judge-cache m s left v =
      elim (Option-cases (Stages.run_plausibility fl fromisoformat m v.plausibility_checker)) [
        | inl raised ↦ ground (arith, raised)
        | inr (w, scored) ↦ ground (arith, scored)
      ]

  meter-cache :
      (k : Clocks) (m : SignedMessage fl.F) (s : Stages.Standing)
      (v : TrustValidator fl fromisoformat)
      → (meter fl fromisoformat k m s v).1.replay_cache ≡ v.replay_cache
  unfolding meter
  meter-cache k m s v =
      let checked = RateLimiter.check m.sender_pseudonym s.level k.rate v.rate_limiter in
      let left = RateLimiter.get_remaining m.sender_pseudonym k.remaining checked.1 in
      let v' : TrustValidator fl fromisoformat = record v {
        rate_limiter = left.1;
        audit_log = v.audit_log ++ s.events;
      } in
      elim (Bool-cases checked.0) [
        | inl allowed ↦ ground (arith, allowed, judge-cache m s left.0 v')
        | inr limited ↦ ground (arith, limited)
      ]

  -- `validate` leaves the replay cache as the request does, if it is made.
  validate-cache :
      (c : Call) (v : TrustValidator fl fromisoformat)
      → (validate fl fromisoformat c.0 c.1 v).1.replay_cache
        ≡ (if reaches c then (Replay.check (asks c) v.replay_cache).1 else v.replay_cache)
  unfolding validate after_replay
  validate-cache c v =
      let asked_now = Replay.check (asks c) v.replay_cache in
      elim (Option-cases (check_timestamps c.1.issued_at c.1.expires_at c.0.now)) [
        | inr (r, old) ↦ ground (arith, old)
        | inl current ↦ elim (Option-cases asked_now.0) [
          | inr (r, replayed) ↦ ground (arith, current, replayed)
          | inl new ↦ ground (
            arith,
            current,
            new,
            meter-cache c.0 c.1
                (Stages.credentials c.0 c.1.sender_pseudonym c.1.credential_ref
                  v.credential_verifier)
                (record v { replay_cache = asked_now.1 }),
          )
        ]
      ]

  asked-reaching :
      (c : Call) (cs : List Call) → reaches c ≡ true → asked (c ∷ cs) ≡ asks c ∷ asked cs
  unfolding asked
  asked-reaching c cs h = rw h refl

  asked-stopped : (c : Call) (cs : List Call) → reaches c ≡ false → asked (c ∷ cs) ≡ asked cs
  unfolding asked
  asked-stopped c cs h = rw h refl

  run-cache :
      (cs : List Call) (v : TrustValidator fl fromisoformat)
      → (run cs v).replay_cache ≡ Replay.run (asked cs) v.replay_cache
  unfolding run asked Replay.run
  run-cache [] v = refl
  run-cache (c ∷ cs) v = elim (Bool-cases (reaches c)) [
    | inl reaching ↦
        run-cache cs (validate fl fromisoformat c.0 c.1 v).1
        ∙ ap (Replay.run (asked cs)) (left_by reaching)
        ∙ ap (λ rs. Replay.run rs v.replay_cache) (sym (asked-reaching c cs reaching))
    | inr stops ↦
        run-cache cs (validate fl fromisoformat c.0 c.1 v).1
        ∙ ap (Replay.run (asked cs)) (left_by stops)
        ∙ ap (λ rs. Replay.run rs v.replay_cache) (sym (asked-stopped c cs stops))
  ]
    where
      left_by :
          {b : Bool}
          → reaches c ≡ b
          → (validate fl fromisoformat c.0 c.1 v).1.replay_cache
            ≡ (if b then (Replay.check (asks c) v.replay_cache).1 else v.replay_cache)
      left_by e =
          validate-cache c v
          ∙ ap (λ b. if b then (Replay.check (asks c) v.replay_cache).1 else v.replay_cache) e

  Later-trans : (a b c : Clock) → Later a b → Later b c → Later a c
  Later-trans a b c h k = omega arith

  -- The calls are made one after the other, between two readings of the clocks of the cache.
  unfoldable pub InTurn : Clock → List Call → Clock → Type 0
  InTurn a [] b = Later a b
  InTurn a (c ∷ cs) b = Later a c.0.replay × InTurn c.0.replay cs b

  InOrder-from :
      (a b : Clock) (rs : List Request) (e : Clock) → Later a b → InOrder b rs e → InOrder a rs e
  InOrder-from a b [] e h o = Later-trans a b e h o
  InOrder-from a b (r ∷ rs) e h o = (Later-trans a b r.clock h o.0, o.1)

  InTurn-InOrder : (a : Clock) (cs : List Call) (b : Clock) → InTurn a cs b → InOrder a (asked cs) b
  unfolding InTurn asked
  InTurn-InOrder a [] b o = o
  InTurn-InOrder a (c ∷ cs) b (now, o) = elim (Bool-cases (reaches c)) [
    | inl reaching ↦ rw reaching (now, InTurn-InOrder c.0.replay cs b o)
    | inr stops ↦
        rw stops (InOrder-from a c.0.replay (asked cs) b now (InTurn-InOrder c.0.replay cs b o))
  ]

  -- Once a message has passed the stages before the rate limit, a message of the same sender and nonce that
  -- expires at the same time is never trusted, whatever its payload and role and whatever was validated in
  -- between, as long as the two clocks of the cache run together: its assessment, if there is one, is
  -- `UNTRUSTED`.
  pub validate_once :
      (first : Call) (between : List Call) (again : Call) (v : TrustValidator fl fromisoformat)
      {a : TrustAssessment fl fromisoformat}
      → check_timestamps first.1.issued_at first.1.expires_at first.0.now ≡ none
      → (Replay.check (asks first) v.replay_cache).0 ≡ none
      → InTurn first.0.replay between again.0.replay
      → key (asks again) ≡ key (asks first)
      → again.1.expires_at ≡ first.1.expires_at
      → (validate fl fromisoformat again.0 again.1
          (run between (validate fl fromisoformat first.0 first.1 v).1)).0
        ≡ some a
      → is_untrusted a.trust_level ≡ true
  validate_once first between again v {a} current new order same expiry h =
      elim (Bool-cases (is_untrusted a.trust_level)) [
        | inl untrusted ↦ untrusted
        | inr trusted ↦
            let v' = run between (validate fl fromisoformat first.0 first.1 v).1 in
            let e = validate-Earned fl fromisoformat again.0 again.1 v' {a = a} h trusted in
            let cached : v'.replay_cache
                ≡ Replay.run (asked between) (Replay.check (asks first) v.replay_cache).1 =
              run-cache between (validate fl fromisoformat first.0 first.1 v).1
              ∙ ap (Replay.run (asked between)) (
                  validate-cache first v
                  ∙ ap
                      (λ b.
                        if b then (Replay.check (asks first) v.replay_cache).1 else v.replay_cache)
                      (reaches_current first current)) in
            absurd (
              replay-refused (asks first) (asked between) (asks again) v.replay_cache new
                (InTurn-InOrder first.0.replay between again.0.replay order) same expiry
                (ap (λ c. (Replay.check (asks again) c).0) (sym cached) ∙ e.once))
      ]
