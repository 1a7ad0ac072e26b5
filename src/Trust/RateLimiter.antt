-- ===== src/Trust/RateLimiter.antt =====
-- services/trust/marga_trust/rate_limiter.py. Times are microseconds of the monotonic clock, rates
-- are tokens a second and the tokens of a bucket are counted in millionths, so that a refill is the
-- product of the source, exactly.
pub mod Rate
pub mod Sender
use marga.Prelude.{
  ℕ, ◌+◌, ◌-◌, ◌*◌, ◌/◌, min, String, Bool, true, false, Option, none, some, List, [], ◌∷◌,
  if◌then◌else◌, leb, string_eq,
}
use marga.Prelude.Dict
use marga.Prelude.Dict.{Dict}

-- packages/schemas/marga_schemas/trust.py
pub data TrustLevel : Type 0 where
  untrusted low medium high authority : TrustLevel

-- `DEFAULT_LIMITS`
unfoldable pub default_limits : TrustLevel → ℕ
default_limits untrusted = 2
default_limits low = 5
default_limits medium = 20
default_limits high = 50
default_limits authority = 200

-- `DEFAULT_BURST`
unfoldable pub default_burst : TrustLevel → ℕ
default_burst untrusted = 4
default_burst low = 10
default_burst medium = 40
default_burst high = 100
default_burst authority = 400

abbrev pub default_global_rate : ℕ
default_global_rate = 500

abbrev pub default_global_burst : ℕ
default_global_burst = 1000

abbrev pub token : ℕ
token = 1_000_000

-- `_Bucket`
pub record Bucket : Type 0 where
  pub tokens : ℕ
  pub capacity : ℕ
  pub refill_rate : ℕ
  pub last_refill : ℕ

unfoldable pub new_bucket : ℕ → ℕ → ℕ → Bucket
new_bucket rate burst now = record {
  tokens = burst * token;
  capacity = burst;
  refill_rate = rate;
  last_refill = now;
}

unfoldable pub refill : ℕ → Bucket → Bucket
refill now b = record b {
  tokens = min (b.capacity * token) (b.tokens + (now - b.last_refill) * b.refill_rate);
  last_refill = now;
}

-- `try_consume`, of one token.
unfoldable pub try_consume : ℕ → Bucket → Bool × Bucket
unfolding refill
try_consume now b =
    let b' = refill now b in
    if leb token b'.tokens then (true, record b' { tokens = b'.tokens - token }) else (false, b')

-- `remaining`, which refills too.
unfoldable pub remaining : ℕ → Bucket → ℕ × Bucket
unfolding refill
remaining now b = let b' = refill now b in (b'.tokens / token, b')

-- The configured limits may lack a level.
pub record RateLimiter : Type 0 where
  pub limits : TrustLevel → Option ℕ
  pub burst : TrustLevel → Option ℕ
  pub buckets : Dict String Bucket
  pub overall : Bucket
  pub rejections : Dict String ℕ
  pub total_rejections : ℕ

unfoldable pub init : (TrustLevel → Option ℕ) → (TrustLevel → Option ℕ) → ℕ → ℕ → ℕ → RateLimiter
unfolding new_bucket
init limits burst global_rate global_burst now = record {
  limits = limits;
  burst = burst;
  buckets = [];
  overall = new_bucket global_rate global_burst now;
  rejections = [];
  total_rejections = 0;
}

-- `dict.get` with a default.
abbrev or_else : ℕ → Option ℕ → ℕ
or_else default none = default
or_else default (some n) = n

unfoldable pub record_rejection : String → RateLimiter → RateLimiter
record_rejection sender r = record r {
  rejections = Dict.put sender (or_else 0 (Dict.get sender r.rejections) + 1) r.rejections;
  total_rejections = r.total_rejections + 1;
}

-- The bucket of a sender, made at his first message. `_get_or_create` also stores a new one, and
-- `check` stores the bucket again after it has consumed.
unfoldable pub get_or_create : String → TrustLevel → ℕ → RateLimiter → Bucket
unfolding new_bucket default_limits default_burst
get_or_create sender level now r = elim (Dict.get sender r.buckets) [
  | some b ↦ b
  | none ↦
      new_bucket (or_else (default_limits untrusted) (r.limits level))
        (or_else (default_burst untrusted) (r.burst level)) now
]

unfoldable pub check : String → TrustLevel → ℕ → RateLimiter → Bool × RateLimiter
check sender level now r =
    let (passed, overall') = try_consume now r.overall in
    let r₁ : RateLimiter = record r { overall = overall' } in
    let (allowed, b) = try_consume now (get_or_create sender level now r₁) in
    let r₂ : RateLimiter = record r₁ { buckets = Dict.put sender b r₁.buckets } in
    if passed
    then if allowed then (true, r₂) else (false, record_rejection sender r₂)
    else (false, record_rejection sender r₁)

unfoldable pub get_remaining : String → ℕ → RateLimiter → ℕ × RateLimiter
unfolding remaining
get_remaining sender now r = elim (Dict.get sender r.buckets) [
  | none ↦ (0, r)
  | some b ↦
      let (n, b') = remaining now b in (n, record r { buckets = Dict.put sender b' r.buckets })
]

unfoldable pub rejection_count : Option String → RateLimiter → ℕ
rejection_count none r = r.total_rejections
rejection_count (some sender) r = or_else 0 (Dict.get sender r.rejections)
