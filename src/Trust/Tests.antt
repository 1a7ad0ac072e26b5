-- ===== src/Trust/Tests.antt =====
-- Runs of the trust modules, and their theorems at concrete inputs.
use marga.Prelude.{
  ℕ, ◌+◌, ◌-◌, ◌*◌, ◌≤◌, ◌≡◌, ◌≢◌, refl, String, some, none, List, [], ◌∷◌, arith, keep, string_eq,
  pair_eq,
}
use marga.Prelude.Dict
use marga.Trust.Replay.{
  Clock, Request, ReplayCache, Rejection, duplicate_nonce, tampered_replay, maybe_cleanup, look_up,
  run, key,
}
use marga.Trust.Replay
use marga.Trust.Replay.Protection.{replay-refused}
use marga.Trust.RateLimiter
use marga.Trust.RateLimiter.{
  TrustLevel, untrusted, authority, token, Bucket, RateLimiter, default_limits, default_burst,
  new_bucket, refill, try_consume, record_rejection, get_or_create,
}
use marga.Trust.RateLimiter.Rate.{Call, allowed, allowed-le}
use marga.Trust.RateLimiter.Sender.{allowed_from}

program : Unit {0}
unfolding Dict.get Dict.put keep maybe_cleanup look_up Replay.check run default_limits default_burst
    new_bucket refill try_consume record_rejection get_or_create RateLimiter.check RateLimiter.init
    allowed allowed_from
program = tt

abbrev empty : ReplayCache
empty = record { cache = []; cleanup_interval_s = 10; extra_retention_s = 5; last_cleanup = 0 }

abbrev at : ℕ → Clock
at t = record { utc = 1_000 + t; mono = t }

abbrev request : ℕ → String → String → Request
request t nonce payload = record {
  clock = at t;
  sender_pseudonym = "v1";
  nonce = nonce;
  payload_hash = payload;
  issued_at = 1_000;
  expires_at = 1_100;
}

abbrev first : Request
first = request 1 "n" "h"

accepts_once : (Replay.check first empty).0 ≡ none
unfolding program
accepts_once = refl

abbrev between : List Request
between = request 20 "m" "h" ∷ request 40 "n" "h" ∷ []

refuses_copy :
    (Replay.check (request 50 "n" "h") (run between (Replay.check first empty).1)).0
    ≡ some duplicate_nonce
unfolding program
refuses_copy = refl

refuses_other :
    (Replay.check (request 50 "n" "x") (run between (Replay.check first empty).1)).0
    ≡ some tampered_replay
unfolding program
refuses_other = refl

replay-refused_example :
    (Replay.check (request 50 "n" "h") (run between (Replay.check first empty).1)).0 ≢ none
replay-refused_example =
    replay-refused first between (request 50 "n" "h") empty accepts_once
      ((omega arith, omega arith), ((omega arith, omega arith), (omega arith, omega arith))) refl
      refl

abbrev limiter : RateLimiter
limiter = RateLimiter.init (λ l. some (default_limits l)) (λ l. some (default_burst l)) 1 3 0

abbrev call : ℕ → String → Call
call t s = record { sender = s; level = untrusted; now = t }

-- Three tokens at first, and one more after a second.
abbrev calls : List Call
calls = call 1 "a" ∷ call 2 "b" ∷ call 3 "a" ∷ call 4 "a" ∷ call 1_000_001 "b" ∷ []

allows_four : allowed calls limiter ≡ 4
unfolding program
allows_four = refl

allowed-le_example :
    allowed calls limiter * token
    ≤ limiter.overall.tokens
      + (2 * token - limiter.overall.last_refill) * limiter.overall.refill_rate
unfolding program
allowed-le_example =
    allowed-le calls limiter (2 * token)
      (omega arith, (omega arith, (omega arith, (omega arith, (omega arith, omega arith)))))

abbrev drained : Bucket
drained = record { tokens = 1 * token; capacity = 4; refill_rate = 2; last_refill = 0 }

abbrev known : RateLimiter
known = record limiter { buckets = ("a", drained) ∷ [] }

allows_one : allowed_from "a" calls known ≡ 1
unfolding program
allows_one = refl
