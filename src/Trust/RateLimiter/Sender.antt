-- ===== src/Trust/RateLimiter/Sender.antt =====
-- The rate of one sender in services/trust/marga_trust/rate_limiter.py, over any run of calls.
use mathlib.Core.Path.{subst}
use text.Mathlib.TextEquality.{eq_iff}
use marga.Prelude.{
  split_time, ℕ, ◌+◌, ◌-◌, ◌*◌, ◌≤◌, ◌≡◌, refl, sym, ap, ◌∙◌, String, Bool, true, false, some, List,
  [], ◌∷◌, arith, if◌then◌else◌, ◌==◌, ◌&&◌, string_eq, Bool-cases, inl, inr,
}
use marga.Prelude.Dict
use marga.Trust.RateLimiter.{
  TrustLevel, token, Bucket, try_consume, RateLimiter, record_rejection, get_or_create, check,
}
use marga.Trust.RateLimiter.Rate.{
  Call, InWindow, InWindow-le, InWindow-from, try_consume-tokens, spend,
}

-- How many of the calls of one sender are allowed.
unfoldable pub allowed_from : String → List Call → RateLimiter → ℕ
allowed_from s [] r = 0
allowed_from s (c ∷ cs) r =
    let (passed, r') = check c.sender c.level c.now r in
    allowed_from s cs r' + (if passed && c.sender == s then 1 else 0)

module _ (s : String) (level : TrustLevel) (now : ℕ) (r : RateLimiter) where
  -- The sender's own bucket decides where the global one has passed the message.
  own_passed :
      (try_consume now r.overall).0 ≡ true
      → (Dict.get s (check s level now r).1.buckets
          ≡ some (try_consume now (get_or_create s level now r)).1)
        × ((check s level now r).0 ≡ (try_consume now (get_or_create s level now r)).0)
  unfolding check record_rejection get_or_create
  own_passed e =
      ground
        (arith, Dict.get-put_self s (try_consume now (get_or_create s level now r)).1 r.buckets)

  own_blocked :
      (try_consume now r.overall).0 ≡ false
      → (Dict.get s (check s level now r).1.buckets ≡ Dict.get s r.buckets)
        × ((check s level now r).0 ≡ false)
  unfolding check record_rejection
  own_blocked e = ground arith

  -- A sender's call does not touch the bucket of another.
  other_bucket :
      (k : String)
      → (s == k) ≡ false
      → Dict.get k (check s level now r).1.buckets ≡ Dict.get k r.buckets
  unfolding check record_rejection get_or_create
  other_bucket k n =
      ground (arith, Dict.get-put s k (try_consume now (get_or_create s level now r)).1 r.buckets)

  existing : (b : Bucket) → Dict.get s r.buckets ≡ some b → get_or_create s level now r ≡ b
  unfolding get_or_create
  existing b e = rw (e, get_or_create)

-- The sender's bucket after one of his calls, by what the global bucket says.
after_call : Bool → ℕ → Bucket → Bucket
after_call passed now b = if passed then (try_consume now b).1 else b

module _ (c : Call) (r : RateLimiter) (b : Bucket)
    (held : Dict.get c.sender r.buckets ≡ some b) where
  bucket_after :
      Dict.get c.sender (check c.sender c.level c.now r).1.buckets
      ≡ some (after_call (try_consume c.now r.overall).0 c.now b)
  unfolding after_call
  bucket_after = elim (Bool-cases (try_consume c.now r.overall).0) [
    | inl passed ↦ rw passed (
        (own_passed c.sender c.level c.now r passed).0
        ∙ ap (λ (b' : Bucket). some (try_consume c.now b').1)
            (existing c.sender c.level c.now r b held))
    | inr blocked ↦ rw blocked ((own_blocked c.sender c.level c.now r blocked).0 ∙ held)
  ]

  allowed_after :
      (check c.sender c.level c.now r).0
      ≡ ((try_consume c.now r.overall).0 && (try_consume c.now b).0)
  allowed_after = elim (Bool-cases (try_consume c.now r.overall).0) [
    | inl passed ↦ rw passed (
        (own_passed c.sender c.level c.now r passed).1
        ∙ ap (λ (b' : Bucket). (try_consume c.now b').0) (existing c.sender c.level c.now r b held))
    | inr blocked ↦ rw blocked ((own_blocked c.sender c.level c.now r blocked).1)
  ]

-- The calls that a sender's bucket allows up to time `e`, after one of his calls, and with it.
spend_own :
    (n : ℕ) (passed : Bool) (now e : ℕ) (b : Bucket)
    → b.last_refill ≤ now
    → now ≤ e
    → n * token
      ≤ (after_call passed now b).tokens
        + (e - (after_call passed now b).last_refill) * (after_call passed now b).refill_rate
    → (n + (if passed && (try_consume now b).0 then 1 else 0)) * token
      ≤ b.tokens + (e - b.last_refill) * b.refill_rate
unfolding after_call
spend_own n false now e b le le' h = omega arith
spend_own n true now e b le le' h =
    let (gives, last, fill) = try_consume-tokens now b in
    let left : ℕ = (try_consume now b).1.tokens in
    let later : n * token ≤ left + (e - now) * b.refill_rate = omega (
      arith,
      ap (λ (k : ℕ). (e - k) * (try_consume now b).1.refill_rate) last,
      ap (λ (k : ℕ). (e - now) * k) fill,
    ) in
    omega (
      arith,
      spend n (try_consume now b).0 (try_consume now b).0 b.tokens left
          ((now - b.last_refill) * b.refill_rate) ((e - now) * b.refill_rate) (λ g. g) later gives,
      split_time b.last_refill now e b.refill_rate le le',
    )

after_call-last :
    (passed : Bool) (now : ℕ) (b : Bucket)
    → b.last_refill ≤ now
    → (after_call passed now b).last_refill ≤ now
unfolding after_call
after_call-last true now b le = omega (arith, (try_consume-tokens now b).1)
after_call-last false now b le = le

and_true : (b : Bool) → (b && true) ≡ b
and_true true = refl
and_true false = refl

-- While a sender has a bucket, his allowed messages up to time `e` take no more tokens than it held
-- and what its rate adds up to `e`, whoever else calls and whatever levels the calls name.
pub allowed_from-le :
    (s : String) (cs : List Call) (r : RateLimiter) (b : Bucket) (e : ℕ)
    → Dict.get s r.buckets ≡ some b
    → InWindow b.last_refill cs e
    → allowed_from s cs r * token ≤ b.tokens + (e - b.last_refill) * b.refill_rate
unfolding allowed_from
allowed_from-le s [] r b e held w = omega arith
allowed_from-le s (c ∷ cs) r b e held w =
    let r' = (check c.sender c.level c.now r).1 in
    let rest = InWindow-from b.last_refill c.now cs e w.0 w.1 in
    elim (Bool-cases (c.sender == s)) [
      | inr other ↦ ground (
        arith,
        allowed_from-le s cs r' b e (other_bucket c.sender c.level c.now r s other ∙ held) rest,
      )
      | inl mine ↦
          let same : c.sender ≡ s = (eq_iff c.sender s).0 mine in
          let held' = subst (λ k. Dict.get k r.buckets ≡ some b) (sym same) held in
          let passed : Bool = (try_consume c.now r.overall).0 in
          let after =
            subst (λ k. Dict.get k r'.buckets ≡ some (after_call passed c.now b)) same
              (bucket_after c r b held') in
          let ih =
            allowed_from-le s cs r' (after_call passed c.now b) e after
              (InWindow-from _ c.now cs e (after_call-last passed c.now b w.0) w.1) in
          rw (mine, allowed_after c r b held', and_true (passed && (try_consume c.now b).0))
            (spend_own (allowed_from s cs r') passed c.now e b w.0 (InWindow-le c.now cs e w.1) ih)
    ]
