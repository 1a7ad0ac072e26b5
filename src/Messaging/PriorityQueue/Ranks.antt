-- ===== src/Messaging/PriorityQueue/Ranks.antt =====
-- Which lanes `_shed_one` of services/messaging/marga_messaging/priority.py can shed from.
use mathlib.Core.Path.{subst}
use marga.Prelude.{
  ℕ, ◌+◌, ◌≤◌, ◌<◌, ◌≡◌, refl, sym, ap, ◌∙◌, ◌⊎◌, inl, inr, false, List, [], ◌∷◌, arith, length,
  leb, if◌then◌else◌, All, All-map, leb→le, Bool-cases, string_eq,
}
use marga.Messaging.Message.{
  MessagePriority, critical_safety, regional_safety, operational, analytics, priority_order,
  same_priority, same_priority_iff,
}
use marga.Messaging.PriorityQueue.{Entry, Queue, has, shed_lane, shed_from, shed_one, shed_order}
use marga.Messaging.PriorityQueue.Invariant.{with_lane}

pub shed_lane-clear :
    (h : List Entry)
    → ((shed_lane [] h).2 ≡ [])
      × (length (shed_lane [] h).1 + (if (shed_lane [] h).0 then 1 else 0) ≡ length h)
unfolding shed_lane has
shed_lane-clear [] = (refl, omega arith)
shed_lane-clear (x ∷ h) = (refl, omega arith)

-- The priorities that rank below one, and the others.
abbrev pub below : MessagePriority → List MessagePriority
below critical_safety = regional_safety ∷ operational ∷ analytics ∷ []
below regional_safety = operational ∷ analytics ∷ []
below operational = analytics ∷ []
below analytics = []

abbrev pub not_below : MessagePriority → List MessagePriority
not_below critical_safety = critical_safety ∷ []
not_below regional_safety = critical_safety ∷ regional_safety ∷ []
not_below operational = critical_safety ∷ regional_safety ∷ operational ∷ []
not_below analytics = critical_safety ∷ regional_safety ∷ operational ∷ analytics ∷ []

All-below :
    (P : MessagePriority → Type 0) (i : MessagePriority)
    → ((p : MessagePriority) → priority_order i < priority_order p → P p)
    → All P (below i)
unfolding priority_order
All-below P critical_safety h = (
  h regional_safety (omega arith),
  (h operational (omega arith), (h analytics (omega arith), tt)),
)
All-below P regional_safety h = (h operational (omega arith), (h analytics (omega arith), tt))
All-below P operational h = (h analytics (omega arith), tt)
All-below P analytics h = tt

pub All-not_below :
    (P : MessagePriority → Type 0) (i : MessagePriority)
    → ((p : MessagePriority) → priority_order p ≤ priority_order i → P p)
    → All P (not_below i)
unfolding priority_order
All-not_below P critical_safety h = (h critical_safety (omega arith), tt)
All-not_below P regional_safety h =
    (h critical_safety (omega arith), (h regional_safety (omega arith), tt))
All-not_below P operational h = (
  h critical_safety (omega arith),
  (h regional_safety (omega arith), (h operational (omega arith), tt)),
)
All-not_below P analytics h = (
  h critical_safety (omega arith),
  (h regional_safety (omega arith), (h operational (omega arith), (h analytics (omega arith), tt))),
)

other_lane :
    (r p : MessagePriority) (h : List Entry) (tombs : List ℕ) (q : Queue)
    → same_priority r p ≡ false
    → (with_lane r h tombs q).lanes p ≡ q.lanes p
other_lane r p h tombs q e = rw e refl

-- Shedding leaves the lanes alone that do not rank below the incoming priority.
shed_from-lanes :
    (incoming : ℕ) (p : MessagePriority) (ps : List MessagePriority) (q : Queue)
    → priority_order p ≤ incoming
    → (shed_from incoming ps q).1.lanes p ≡ q.lanes p
unfolding shed_from
shed_from-lanes incoming p [] q low = refl
shed_from-lanes incoming p (r ∷ rs) q low =
    let h : List Entry = (shed_lane q.tombstones (q.lanes r)).1 in
    let tombs : List ℕ = (shed_lane q.tombstones (q.lanes r)).2 in
    elim (Bool-cases (leb (priority_order r) incoming)) [
      | inl stop ↦ rw (stop, shed_from) refl
      | inr go ↦
          let apart : same_priority r p ≡ false = elim (Bool-cases (same_priority r p)) [
            | inr other ↦ other
            | inl same ↦
                let it : priority_order r ≡ priority_order p =
                  ap priority_order ((same_priority_iff r p).0 same) in
                absurd (ground (arith, it, go, low))
          ] in
          let same = other_lane r p h tombs q apart in
          elim (Bool-cases (shed_lane q.tombstones (q.lanes r)).0) [
            | inl shed ↦ rw (go, shed, shed_from) same
            | inr kept ↦
                rw (go, kept, shed_from)
                  (shed_from-lanes incoming p rs (with_lane r h tombs q) low ∙ same)
          ]
    ]

-- The lanes stand from the lowest priority up.
abbrev Descends : List MessagePriority → Type 0
Descends [] = Unit
Descends (p ∷ ps) = All (λ r. priority_order r ≤ priority_order p) ps × Descends ps

shed_lane-none : (h : List Entry) → (shed_lane [] h).0 ≡ false → h ≡ []
unfolding shed_lane has
shed_lane-none [] e = refl
shed_lane-none (x ∷ h) e = ground (arith, e)

-- Where nothing is shed, the lanes below the incoming priority are empty.
emptied :
    (r p : MessagePriority) (h : List Entry) (tombs : List ℕ) (q : Queue) {incoming : ℕ}
    → q.lanes r ≡ []
    → (priority_order p ≤ incoming) ⊎ ((with_lane r h tombs q).lanes p ≡ [])
    → (priority_order p ≤ incoming) ⊎ (q.lanes p ≡ [])
emptied r p h tombs q empty (inl low) = inl low
emptied r p h tombs q empty (inr gone) = elim (Bool-cases (same_priority r p)) [
  | inl same ↦ inr (ap q.lanes (sym ((same_priority_iff r p).0 same)) ∙ empty)
  | inr other ↦ inr (sym (other_lane r p h tombs q other) ∙ gone)
]

shed_from-none :
    (incoming : ℕ) (ps : List MessagePriority) (q : Queue)
    → Descends ps
    → q.tombstones ≡ []
    → (shed_from incoming ps q).0 ≡ false
    → All (λ p. (priority_order p ≤ incoming) ⊎ (q.lanes p ≡ [])) ps
unfolding shed_from
shed_from-none incoming [] q d clear e = tt
shed_from-none incoming (r ∷ rs) q d clear e =
    let h : List Entry = (shed_lane q.tombstones (q.lanes r)).1 in
    let tombs : List ℕ = (shed_lane q.tombstones (q.lanes r)).2 in
    elim (Bool-cases (leb (priority_order r) incoming)) [
      | inl stop ↦
          let low : priority_order r ≤ incoming = leb→le (priority_order r) incoming stop in
          (inl low, All-map rs (λ p under. inl (omega (arith, under, low))) d.0)
      | inr go ↦ elim (Bool-cases (shed_lane q.tombstones (q.lanes r)).0) [
        | inl shed ↦ absurd (ground (arith, go, shed, e))
        | inr kept ↦
            let empty : q.lanes r ≡ [] =
              shed_lane-none (q.lanes r)
                (ap (λ t. (shed_lane t (q.lanes r)).0) (sym clear) ∙ kept) in
            let clear' : tombs ≡ [] =
              ap (λ t. (shed_lane t (q.lanes r)).2) clear ∙ (shed_lane-clear (q.lanes r)).0 in
            (
              inr empty,
              All-map rs (λ p x. emptied r p h tombs q empty x)
                  (shed_from-none incoming rs (with_lane r h tombs q) d.1 clear'
                    (ground (arith, go, kept, e))),
            )
      ]
    ]

shed_order-Descends : Descends shed_order
unfolding priority_order
shed_order-Descends = (
  (omega arith, (omega arith, (omega arith, tt))),
  ((omega arith, (omega arith, tt)), ((omega arith, tt), (tt, tt))),
)

at_priority : (P : MessagePriority → Type 0) (p : MessagePriority) → All P shed_order → P p
at_priority P analytics h = h.0
at_priority P operational h = h.1.0
at_priority P regional_safety h = h.1.1.0
at_priority P critical_safety h = h.1.1.1.0

empty_below :
    (i p : MessagePriority) {lane : List Entry}
    → priority_order i < priority_order p
    → (priority_order p ≤ priority_order i) ⊎ (lane ≡ [])
    → lane ≡ []
empty_below i p under (inl low) = absurd (omega (arith, under, low))
empty_below i p under (inr gone) = gone

-- Where nothing is shed, no message ranks below the incoming one.
pub shed_one-none :
    (i : MessagePriority) (q : Queue)
    → q.tombstones ≡ []
    → (shed_one i q).0 ≡ false
    → All (λ p. q.lanes p ≡ []) (below i)
unfolding shed_one
shed_one-none i q clear e =
    All-below (λ p. q.lanes p ≡ []) i
      (λ p under. empty_below i p under (
        at_priority (λ r. (priority_order r ≤ priority_order i) ⊎ (q.lanes r ≡ [])) p
          (shed_from-none (priority_order i) shed_order q shed_order-Descends clear e)))

pub shed_one-lanes :
    (i p : MessagePriority) (q : Queue)
    → priority_order p ≤ priority_order i
    → length (q.lanes p) ≤ length ((shed_one i q).1.lanes p)
unfolding shed_one
shed_one-lanes i p q low =
    subst (λ h. length (q.lanes p) ≤ length h)
      (sym (shed_from-lanes (priority_order i) p shed_order q low)) (omega arith)
