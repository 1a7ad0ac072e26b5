-- ===== src/Trust/RateLimiter/Rate.antt =====
-- The rates that services/trust/marga_trust/rate_limiter.py enforces, over any run of calls.
use marga.Prelude.{
  split_time, ℕ, ◌+◌, ◌-◌, ◌*◌, ◌≤◌, ◌≡◌, refl, ap, ◌∙◌, String, Bool, true, false, List, [], ◌∷◌,
  arith, if◌then◌else◌, string_eq,
}
use marga.Trust.RateLimiter.{
  TrustLevel, token, Bucket, refill, try_consume, RateLimiter, record_rejection, check,
}

-- One call of `check`.
pub record Call : Type 0 where
  pub sender : String
  pub level : TrustLevel
  pub now : ℕ

-- The calls are made one after the other, from time `t` to time `e`.
abbrev pub InWindow : ℕ → List Call → ℕ → Type 0
InWindow t [] e = t ≤ e
InWindow t (c ∷ cs) e = (t ≤ c.now) × InWindow c.now cs e

-- How many of the calls are allowed.
unfoldable pub allowed : List Call → RateLimiter → ℕ
allowed [] r = 0
allowed (c ∷ cs) r =
    let (passed, r') = check c.sender c.level c.now r in allowed cs r' + (if passed then 1 else 0)

pub InWindow-le : (t : ℕ) (cs : List Call) (e : ℕ) → InWindow t cs e → t ≤ e
InWindow-le t [] e w = w
InWindow-le t (c ∷ cs) e w = omega (arith, InWindow-le c.now cs e w.1)

pub InWindow-from : (t u : ℕ) (cs : List Call) (e : ℕ) → t ≤ u → InWindow u cs e → InWindow t cs e
InWindow-from t u [] e le w = omega arith
InWindow-from t u (c ∷ cs) e le w = (omega arith, w.1)

-- A bucket gives out no more than it had and what was added since.
pub try_consume-tokens :
    (now : ℕ) (b : Bucket)
    → ((try_consume now b).1.tokens + (if (try_consume now b).0 then token else 0)
        ≤ b.tokens + (now - b.last_refill) * b.refill_rate)
      × ((try_consume now b).1.last_refill ≡ now)
      × ((try_consume now b).1.refill_rate ≡ b.refill_rate)
unfolding try_consume refill
try_consume-tokens now b = ground arith

check-overall :
    (s : String) (level : TrustLevel) (now : ℕ) (r : RateLimiter)
    → ((check s level now r).1.overall ≡ (try_consume now r.overall).1)
unfolding check record_rejection
check-overall s level now r = ground arith

check-passed :
    (s : String) (level : TrustLevel) (now : ℕ) (r : RateLimiter)
    → (check s level now r).0 ≡ true
    → (try_consume now r.overall).0 ≡ true
unfolding check
check-passed s level now r e = ground arith

-- The arithmetic of one call: `n` later calls are allowed, this one is if `allow`, and the bucket
-- gave a token if `gave`.
pub spend :
    (n : ℕ) (allow gave : Bool) (had left gain later : ℕ)
    → (allow ≡ true → gave ≡ true)
    → n * token ≤ left + later
    → left + (if gave then token else 0) ≤ had + gain
    → (n + (if allow then 1 else 0)) * token ≤ had + (gain + later)
spend n true gave had left gain later f le step = ground (arith, f refl)
spend n false true had left gain later f le step = omega arith
spend n false false had left gain later f le step = omega arith

-- A run of calls against what one bucket holds at time `t` and gains by `rate`.
allowed-bound :
    (cs : List Call) (r : RateLimiter) (t e rate : ℕ)
    → r.overall.last_refill ≡ t
    → r.overall.refill_rate ≡ rate
    → InWindow t cs e
    → allowed cs r * token ≤ r.overall.tokens + (e - t) * rate
unfolding allowed
allowed-bound [] r t e rate et er w = omega arith
allowed-bound (c ∷ cs) r t e rate et er w =
    let r' = (check c.sender c.level c.now r).1 in
    let same = check-overall c.sender c.level c.now r in
    let (gives, last, fill) = try_consume-tokens c.now r.overall in
    let tokens = ap (λ (b : Bucket). b.tokens) same in
    let ih =
      allowed-bound cs r' c.now e rate (ap (λ (b : Bucket). b.last_refill) same ∙ last)
        (ap (λ (b : Bucket). b.refill_rate) same ∙ fill ∙ er) w.1 in
    let spent =
      spend (allowed cs r') (check c.sender c.level c.now r).0 (try_consume c.now r.overall).0
        r.overall.tokens (try_consume c.now r.overall).1.tokens
        ((c.now - r.overall.last_refill) * r.overall.refill_rate) ((e - c.now) * rate)
        (check-passed c.sender c.level c.now r) (omega arith) gives in
    omega (
      arith,
      split_time t c.now e rate w.0 (InWindow-le c.now cs e w.1),
      ap (λ (k : ℕ). (c.now - k) * r.overall.refill_rate) et,
      ap (λ (k : ℕ). (c.now - t) * k) er,
    )

-- Over any calls up to time `e`, the messages that are allowed take no more tokens than the global
-- bucket held and what its rate adds up to `e`.
pub allowed-le :
    (cs : List Call) (r : RateLimiter) (e : ℕ)
    → InWindow r.overall.last_refill cs e
    → allowed cs r * token ≤ r.overall.tokens + (e - r.overall.last_refill) * r.overall.refill_rate
allowed-le cs r e w = allowed-bound cs r r.overall.last_refill e r.overall.refill_rate refl refl w
