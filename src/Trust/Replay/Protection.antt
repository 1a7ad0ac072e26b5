-- ===== src/Trust/Replay/Protection.antt =====
-- No message passes the replay cache of services/trust/marga_trust/replay.py twice.
use marga.Prelude.{
  ℕ, ◌+◌, ◌-◌, ◌*◌, ◌/◌, ◌≤◌, ◌<◌, ◌≡◌, ◌≢◌, refl, inl, inr, String, none, some, List, [], ◌∷◌,
  arith, keep, ltb, leb, Bool-cases, Option-cases, pair_eq, pair_eqb_iff, string_eq, ap,
}
use marga.Prelude.Dict
use marga.Prelude.Dict.{Dict}
use marga.Trust.Replay.{
  second, CacheEntry, ReplayCache, Clock, Request, key, entry_of, maybe_cleanup, look_up, check,
  run,
}

-- The cache holds the key until the monotonic clock shows `deadline`.
abbrev Holds : String × String → ℕ → ReplayCache → Type 0
Holds k deadline c = (v : CacheEntry) × (Dict.get k c.cache ≡ some v) × (v.expires_at ≡ deadline)

get-keep :
    (now : ℕ) (k : String × String) (d : Dict (String × String) CacheEntry) (v : CacheEntry)
    → Dict.get k d ≡ some v
    → now < v.expires_at
    → Dict.get k (keep (λ e. ltb now (e.1).expires_at) d) ≡ some v
unfolding keep Dict.get
get-keep now k [] v e later = cc
get-keep now k ((j, w) ∷ d) v e later = ground (arith, get-keep now k d v)

cleanup-Holds :
    (now : ℕ) (k : String × String) (deadline : ℕ) (c : ReplayCache)
    → now < deadline
    → Holds k deadline c
    → Holds k deadline (maybe_cleanup now c)
unfolding maybe_cleanup
cleanup-Holds now k deadline c later (v, e, f) = (v, ground (arith, get-keep now k c.cache v), f)

look_up-Holds :
    (k : String × String) (deadline : ℕ) (r : Request) (c : ReplayCache)
    → Holds k deadline c
    → Holds k deadline (look_up r c).1
unfolding look_up
look_up-Holds k deadline r c (v, e, f) = elim (Option-cases (Dict.get (key r) c.cache)) [
  | inr (w, old) ↦ rw (old, look_up) (v, e, f)
  | inl new ↦
      rw (new, look_up)
        (
          v,
          ground (arith, Dict.get-put (key r) k (entry_of r c) c.cache, pair_eqb_iff (key r) k),
          f,
        )
]

check-Holds :
    (k : String × String) (deadline : ℕ) (r : Request) (c : ReplayCache)
    → r.clock.mono < deadline
    → Holds k deadline c
    → Holds k deadline (check r c).1
unfolding check
check-Holds k deadline r c later h = elim (Bool-cases (leb r.expires_at r.clock.utc)) [
  | inl a ↦ rw (a, check) h
  | inr a ↦ elim (Bool-cases (ltb (r.clock.utc / second * second + 5 * second) r.issued_at)) [
    | inl b ↦ rw (a, b, check) h
    | inr b ↦
        rw (a, b, check)
          (look_up-Holds k deadline r _ (cleanup-Holds r.clock.mono k deadline c later h))
  ]
]

-- The two clocks run together, and do not run back.
abbrev pub Later : Clock → Clock → Type 0
Later a b = (a.mono ≤ b.mono) × (b.utc + a.mono ≡ a.utc + b.mono)

-- The calls are made one after the other, between two moments.
abbrev pub InOrder : Clock → List Request → Clock → Type 0
InOrder a [] b = Later a b
InOrder a (r ∷ rs) b = Later a r.clock × InOrder r.clock rs b

pub InOrder-Later : (a : Clock) (rs : List Request) (b : Clock) → InOrder a rs b → Later a b
InOrder-Later a [] b o = o
InOrder-Later a (r ∷ rs) b o =
    let (m, u) = InOrder-Later r.clock rs b o.1 in (omega arith, omega arith)

run-Holds :
    (k : String × String) (deadline : ℕ) (a : Clock) (rs : List Request) (b : Clock)
    (c : ReplayCache)
    → InOrder a rs b
    → b.mono < deadline
    → Holds k deadline c
    → Holds k deadline (run rs c)
unfolding run
run-Holds k deadline a [] b c o later h = h
run-Holds k deadline a (r ∷ rs) b c o later h =
    let (m, u) = InOrder-Later r.clock rs b o.1 in
    run-Holds k deadline r.clock rs b (check r c).1 o.1 later
      (check-Holds k deadline r c (omega arith) h)

look_up-entry :
    (r : Request) (c : ReplayCache)
    → (look_up r c).0 ≡ none
    → Dict.get (key r) (look_up r c).1.cache ≡ some (entry_of r c)
unfolding look_up
look_up-entry r c e = elim (Option-cases (Dict.get (key r) c.cache)) [
  | inr (w, old) ↦ absurd (ground arith)
  | inl new ↦ rw (new, look_up) (Dict.get-put_self (key r) (entry_of r c) c.cache)
]

look_up-refused :
    (r : Request) (c : ReplayCache) {v : CacheEntry}
    → Dict.get (key r) c.cache ≡ some v
    → (look_up r c).0 ≢ none
unfolding look_up
look_up-refused r c e = ground arith

cleanup-retention :
    (now : ℕ) (c : ReplayCache) → (maybe_cleanup now c).extra_retention_s ≡ c.extra_retention_s
unfolding maybe_cleanup
cleanup-retention now c = ground arith

-- A message is accepted only in its lifetime, by a look-up in the cleaned cache.
check-accepted :
    (r : Request) (c : ReplayCache)
    → (check r c).0 ≡ none
    → (r.clock.utc < r.expires_at)
      × (check r c ≡ look_up r (maybe_cleanup r.clock.mono c))
      × ((look_up r (maybe_cleanup r.clock.mono c)).0 ≡ none)
unfolding check
check-accepted r c e = ground arith

-- What an accepted message leaves behind.
accepted-Holds :
    (r : Request) (c : ReplayCache)
    → (check r c).0 ≡ none
    → Holds
        (key r)
        (r.clock.mono + (r.expires_at - r.clock.utc) + c.extra_retention_s)
        (check r c).1
accepted-Holds r c e =
    let (_, run_of, none_of) = check-accepted r c e in
    rw run_of (
      entry_of r (maybe_cleanup r.clock.mono c),
      look_up-entry r (maybe_cleanup r.clock.mono c) none_of,
      ap (λ (n : ℕ). r.clock.mono + (r.expires_at - r.clock.utc) + n)
          (cleanup-retention r.clock.mono c),
    )

-- A held key is refused.
held-refused :
    (deadline : ℕ) (r : Request) (c : ReplayCache)
    → r.clock.mono < deadline
    → Holds (key r) deadline c
    → (check r c).0 ≢ none
held-refused deadline r c later h = λ e.
    let (_, _, none_of) = check-accepted r c e in
    let (v, found, _) = cleanup-Holds r.clock.mono (key r) deadline c later h in
    look_up-refused r (maybe_cleanup r.clock.mono c) found none_of

-- Once a message is accepted, a message of the same sender and nonce that expires at the same time
-- is never accepted again, whatever its payload and whatever was checked in between, as long as the
-- wall clock and the monotonic clock run together.
pub replay-refused :
    (first : Request) (between : List Request) (again : Request) (c : ReplayCache)
    → (check first c).0 ≡ none
    → InOrder first.clock between again.clock
    → key again ≡ key first
    → again.expires_at ≡ first.expires_at
    → (check again (run between (check first c).1)).0 ≢ none
replay-refused first between again c accepted order same expiry = λ e.
    let deadline : ℕ =
      first.clock.mono + (first.expires_at - first.clock.utc) + c.extra_retention_s in
    let after : ReplayCache = (check first c).1 in
    let (alive, _, _) = check-accepted first c accepted in
    let (unexpired, _, _) = check-accepted again (run between after) e in
    let (mono, utc) = InOrder-Later first.clock between again.clock order in
    let soon : again.clock.mono < deadline = omega arith in
    held-refused deadline again (run between after) soon
      (rw same (
        run-Holds (key first) deadline first.clock between again.clock after order soon
          (accepted-Holds first c accepted)))
      e

get-keep-none :
    (now : ℕ) (k : String × String) (d : Dict (String × String) CacheEntry)
    → Dict.get k d ≡ none
    → Dict.get k (keep (λ e. ltb now (e.1).expires_at) d) ≡ none
unfolding keep Dict.get
get-keep-none now k [] e = refl
get-keep-none now k ((j, w) ∷ d) e = ground (arith, get-keep-none now k d)

cleanup-none :
    (r : Request) (c : ReplayCache)
    → Dict.get (key r) c.cache ≡ none
    → Dict.get (key r) (maybe_cleanup r.clock.mono c).cache ≡ none
unfolding maybe_cleanup
cleanup-none r c e = ground (arith, get-keep-none r.clock.mono (key r) c.cache)

look_up-new :
    (r : Request) (c : ReplayCache) → Dict.get (key r) c.cache ≡ none → (look_up r c).0 ≡ none
unfolding look_up
look_up-new r c e = rw (e, look_up)

-- A message within its lifetime, issued at most five seconds after the current whole second, whose
-- sender and nonce the cache does not hold, is accepted.
pub new-accepted :
    (r : Request) (c : ReplayCache)
    → r.clock.utc < r.expires_at
    → r.issued_at ≤ r.clock.utc / second * second + 5 * second
    → Dict.get (key r) c.cache ≡ none
    → (check r c).0 ≡ none
unfolding check
new-accepted r c alive issued new =
    ground (arith, look_up-new r (maybe_cleanup r.clock.mono c), cleanup-none r c new)
