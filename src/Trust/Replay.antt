-- ===== src/Trust/Replay.antt =====
-- services/trust/marga_trust/replay.py, `ReplayCache`. Times are microseconds. One call reads each
-- of its two clocks once: the wall clock (UTC) and the monotonic clock.
pub mod Protection
use marga.Prelude.{
  ℕ, ◌+◌, ◌-◌, ◌*◌, ◌/◌, String, Bool, Option, none, some, List, [], ◌∷◌, if◌then◌else◌, ltb, leb,
  length, keep, ◌==◌, string_eq, pair_eq,
}
use marga.Prelude.Dict
use marga.Prelude.Dict.{Dict}

abbrev pub second : ℕ
second = 1_000_000

-- `_CacheEntry`; `expires_at` is on the monotonic clock.
pub record CacheEntry : Type 0 where
  pub payload_hash : String
  pub expires_at : ℕ

pub record ReplayCache : Type 0 where
  pub cache : Dict (String × String) CacheEntry
  pub cleanup_interval_s : ℕ
  pub extra_retention_s : ℕ
  pub last_cleanup : ℕ

pub record Clock : Type 0 where
  pub utc : ℕ
  pub mono : ℕ

-- The arguments of one call of `check`.
pub record Request : Type 0 where
  pub clock : Clock
  pub sender_pseudonym : String
  pub nonce : String
  pub payload_hash : String
  pub issued_at : ℕ
  pub expires_at : ℕ

-- The reasons of a rejection; an accepted message has none.
pub data Rejection : Type 0 where
  message_expired future_timestamp tampered_replay duplicate_nonce : Rejection

abbrev pub key : Request → String × String
key r = (r.sender_pseudonym, r.nonce)

unfoldable pub maybe_cleanup : ℕ → ReplayCache → ReplayCache
unfolding keep
maybe_cleanup now c =
    if ltb (now - c.last_cleanup) c.cleanup_interval_s
    then c
    else record c { cache = keep (λ e. ltb now (e.1).expires_at) c.cache; last_cleanup = now }

-- The entry that an accepted message leaves.
abbrev pub entry_of : Request → ReplayCache → CacheEntry
entry_of r c = record {
  payload_hash = r.payload_hash;
  expires_at = r.clock.mono + (r.expires_at - r.clock.utc) + c.extra_retention_s;
}

-- The part of `check` under the lock.
unfoldable pub look_up : Request → ReplayCache → Option Rejection × ReplayCache
look_up r c = elim (Dict.get (key r) c.cache) [
  | some existing ↦ (
    some (if existing.payload_hash == r.payload_hash then duplicate_nonce else tampered_replay),
    c,
  )
  | none ↦ (none, record c { cache = Dict.put (key r) (entry_of r c) c.cache })
]

-- `now_utc.replace(microsecond=0)` drops the part of a second.
unfoldable pub check : Request → ReplayCache → Option Rejection × ReplayCache
unfolding look_up
check r c =
    if leb r.expires_at r.clock.utc
    then (some message_expired, c)
    else if ltb (r.clock.utc / second * second + 5 * second) r.issued_at
    then (some future_timestamp, c)
    else look_up r (maybe_cleanup r.clock.mono c)

unfoldable pub size : ReplayCache → ℕ
size c = length c.cache

unfoldable pub clear : ReplayCache → ReplayCache
clear c = record c { cache = [] }

-- The cache after some calls.
unfoldable pub run : List Request → ReplayCache → ReplayCache
run [] c = c
run (r ∷ rs) c = run rs (check r c).1
