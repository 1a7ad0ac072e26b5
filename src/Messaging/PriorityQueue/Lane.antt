-- ===== src/Messaging/PriorityQueue/Lane.antt =====
-- What the two loops of services/messaging/marga_messaging/priority.py over one lane do to the
-- entries that are not compacted out.
use marga.Prelude.{
  ℕ, ◌≡◌, refl, Bool, true, false, Option, none, some, List, [], ◌∷◌, arith, if◌then◌else◌, All,
  Bool-cases, inl, inr,
}
use mathlib.Core.Path.{subst}
use marga.Messaging.Message.{is_expired}
use marga.Messaging.PriorityQueue.{Entry, has, discard, shed_lane, pop_lane}
use marga.Messaging.PriorityQueue.Sets.{alive, Avoids, Distinct, has-discard, alive-discard}

-- The entries of two heaps have different sequence numbers.
abbrev pub Disjoint : List Entry → List Entry → Type 0
Disjoint h k = All (λ (x : Entry). Avoids x.seq k) h

pub data Suffix : List Entry → List Entry → Type 0 where
  whole : (h : List Entry) → Suffix h h
  past : {h k : List Entry} (x : Entry) → Suffix h k → Suffix h (x ∷ k)

pub Suffix-All {ℓ} : (P : Entry → Type ℓ) {h k : List Entry} → Suffix h k → All P k → All P h
Suffix-All P (whole h) a = a
Suffix-All P (past x s) a = Suffix-All P s a.1

pub Suffix-Distinct : {h k : List Entry} → Suffix h k → Distinct k → Distinct h
Suffix-Distinct (whole h) d = d
Suffix-Distinct (past x s) d = Suffix-Distinct s d.1

-- A lane loses its first entries, and with them at most their tombstones.
pub record LaneStep (tombs : List ℕ) (h : List Entry) (tombs' : List ℕ) (h' : List Entry)
    : Type 0 where
  pub suffix : Suffix h' h
  pub own : All (λ (y : Entry). has y.seq tombs' ≡ has y.seq tombs) h'
  pub others : (k : ℕ) → Avoids k h → has k tombs' ≡ has k tombs
  pub shrinks : (k : ℕ) → has k tombs' ≡ true → has k tombs ≡ true

All-refl :
    (tombs : List ℕ) (h : List Entry) → All (λ (y : Entry). has y.seq tombs ≡ has y.seq tombs) h
All-refl tombs [] = tt
All-refl tombs (x ∷ h) = (refl, All-refl tombs h)

LaneStep-refl : (tombs : List ℕ) (h : List Entry) → LaneStep tombs h tombs h
LaneStep-refl tombs h = record {
  suffix = whole h;
  own = All-refl tombs h;
  others = λ k a. refl;
  shrinks = λ k t. t;
}

LaneStep-take : (tombs : List ℕ) (x : Entry) (h : List Entry) → LaneStep tombs (x ∷ h) tombs h
LaneStep-take tombs x h = record {
  suffix = past x (whole h);
  own = All-refl tombs h;
  others = λ k a. refl;
  shrinks = λ k t. t;
}

LaneStep-past :
    (x : Entry) {tombs : List ℕ} {h : List Entry} {tombs' : List ℕ} {h' : List Entry}
    → LaneStep tombs h tombs' h'
    → LaneStep tombs (x ∷ h) tombs' h'
LaneStep-past x s = record {
  suffix = past x s.suffix;
  own = s.own;
  others = λ k a. s.others k a.1;
  shrinks = s.shrinks;
}

own-discard :
    (x : Entry) (tombs tombs' : List ℕ) (h : List Entry)
    → Avoids x.seq h
    → All (λ (y : Entry). has y.seq tombs' ≡ has y.seq (discard x.seq tombs)) h
    → All (λ (y : Entry). has y.seq tombs' ≡ has y.seq tombs) h
own-discard x tombs tombs' [] a o = tt
own-discard x tombs tombs' (y ∷ h) a o =
    (ground (arith, has-discard x.seq y.seq tombs), own-discard x tombs tombs' h a.1 o.1)

LaneStep-discard :
    (x : Entry) {tombs : List ℕ} {h : List Entry} {tombs' : List ℕ} {h' : List Entry}
    → Avoids x.seq h
    → LaneStep (discard x.seq tombs) h tombs' h'
    → LaneStep tombs (x ∷ h) tombs' h'
LaneStep-discard x {tombs} {h} {tombs'} {h'} a s = record {
  suffix = past x s.suffix;
  own = own-discard x tombs tombs' h' (Suffix-All _ s.suffix a) s.own;
  others = λ k b. ground (arith, s.others k b.1, has-discard x.seq k tombs);
  shrinks = λ k t. ground (arith, s.shrinks k t, has-discard x.seq k tombs);
}

pub pop_lane-LaneStep :
    (now : ℕ) (tombs : List ℕ) (h : List Entry)
    → Distinct h
    → LaneStep tombs h (pop_lane now tombs h).2 (pop_lane now tombs h).1
unfolding pop_lane
pop_lane-LaneStep now tombs [] d = LaneStep-refl tombs []
pop_lane-LaneStep now tombs (x ∷ h) d = elim (Bool-cases (has x.seq tombs)) [
  | inl dead ↦
      rw (dead, pop_lane)
        (LaneStep-discard x d.0 (pop_lane-LaneStep now (discard x.seq tombs) h d.1))
  | inr live ↦ elim (Bool-cases (is_expired now x.message)) [
    | inl old ↦ rw (live, old, pop_lane) (LaneStep-past x (pop_lane-LaneStep now tombs h d.1))
    | inr new ↦ rw (live, new, pop_lane) (LaneStep-take tombs x h)
  ]
]

pub shed_lane-LaneStep :
    (tombs : List ℕ) (h : List Entry)
    → Distinct h
    → LaneStep tombs h (shed_lane tombs h).2 (shed_lane tombs h).1
unfolding shed_lane
shed_lane-LaneStep tombs [] d = LaneStep-refl tombs []
shed_lane-LaneStep tombs (x ∷ h) d = elim (Bool-cases (has x.seq tombs)) [
  | inl dead ↦
      rw (dead, shed_lane) (LaneStep-discard x d.0 (shed_lane-LaneStep (discard x.seq tombs) h d.1))
  | inr live ↦ rw (live, shed_lane) (LaneStep-take tombs x h)
]

-- The first entry that has not expired, and what follows it.
unfoldable pub fresh : ℕ → List Entry → Option Entry × List Entry
fresh now [] = (none, [])
fresh now (x ∷ l) = let rest = fresh now l in if is_expired now x.message then rest else (some x, l)

unfoldable pub tail : List Entry → List Entry
tail [] = []
tail (x ∷ l) = l

unfoldable pub is_nonempty : List Entry → Bool
is_nonempty [] = false
is_nonempty (x ∷ l) = true

pub pop_lane-fresh :
    (now : ℕ) (tombs : List ℕ) (h : List Entry)
    → Distinct h
    → fresh now (alive tombs h)
      ≡ ((pop_lane now tombs h).0, alive (pop_lane now tombs h).2 (pop_lane now tombs h).1)
unfolding pop_lane alive fresh
pop_lane-fresh now tombs [] d = refl
pop_lane-fresh now tombs (x ∷ h) d = ground (
  arith,
  pop_lane-fresh now tombs h d.1,
  pop_lane-fresh now (discard x.seq tombs) h d.1,
  alive-discard x.seq tombs h d.0,
)

pub shed_lane-tail :
    (tombs : List ℕ) (h : List Entry)
    → Distinct h
    → ((shed_lane tombs h).0 ≡ is_nonempty (alive tombs h))
      × (alive (shed_lane tombs h).2 (shed_lane tombs h).1 ≡ tail (alive tombs h))
unfolding shed_lane alive tail is_nonempty
shed_lane-tail tombs [] d = (refl, refl)
shed_lane-tail tombs (x ∷ h) d =
    ground (arith, shed_lane-tail (discard x.seq tombs) h d.1, alive-discard x.seq tombs h d.0)

pub pop_lane-found {ℓ} :
    (P : Entry → Type ℓ) (now : ℕ) (tombs : List ℕ) (h : List Entry)
    → All P h
    → (x : Entry) → (pop_lane now tombs h).0 ≡ some x
    → P x
unfolding pop_lane
pop_lane-found P now tombs [] a x e = cc
pop_lane-found P now tombs (y ∷ h) a x e = elim (Bool-cases (has y.seq tombs)) [
  | inl dead ↦ pop_lane-found P now (discard y.seq tombs) h a.1 x (rw (dead, pop_lane) at e)
  | inr live ↦ elim (Bool-cases (is_expired now y.message)) [
    | inl old ↦ pop_lane-found P now tombs h a.1 x (rw (live, old, pop_lane) at e)
    | inr new ↦ subst P (ground arith) a.0
  ]
]

-- The entry that is returned has gone from the heap.
pub pop_lane-gone :
    (now : ℕ) (tombs : List ℕ) (h : List Entry) (x : Entry)
    → Distinct h
    → (pop_lane now tombs h).0 ≡ some x
    → Avoids x.seq (pop_lane now tombs h).1
unfolding pop_lane
pop_lane-gone now tombs [] x d e = tt
pop_lane-gone now tombs (y ∷ h) x d e = elim (Bool-cases (has y.seq tombs)) [
  | inl dead ↦
      rw (dead, pop_lane)
        (pop_lane-gone now (discard y.seq tombs) h x d.1 (rw (dead, pop_lane) at e))
  | inr live ↦ elim (Bool-cases (is_expired now y.message)) [
    | inl old ↦
        rw (live, old, pop_lane) (pop_lane-gone now tombs h x d.1 (rw (live, old, pop_lane) at e))
    | inr new ↦
        rw (live, new, pop_lane)
          (let same : y ≡ x = ground arith in subst (λ (z : Entry). Avoids z.seq h) same d.0)
  ]
]
