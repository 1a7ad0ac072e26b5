-- ===== src/Messaging/PriorityQueue/Shed.antt =====
-- `_shed_one` of services/messaging/marga_messaging/priority.py against plain queues.
use marga.Prelude.{
  ℕ, ◌+◌, ◌≡◌, refl, sym, true, false, List, [], ◌∷◌, arith, leb, Bool-cases, inl, inr, ◌∙◌, ap,
}
use mathlib.Core.Path.{fun_ext}
use marga.Messaging.Message.{MessagePriority, priority_order, same_priority, same_priority_iff}
use marga.Messaging.PriorityQueue.{Entry, Queue, set_at, shed_lane, shed_from, shed_order, shed_one}
use marga.Messaging.PriorityQueue.Sets.{alive}
use marga.Messaging.PriorityQueue.Lane.{shed_lane-LaneStep, tail, is_nonempty, shed_lane-tail}
use marga.Messaging.PriorityQueue.Invariant.{IsQueue, with_lane, with_lane-IsQueue}
use marga.Messaging.PriorityQueue.View.{Lanes, view, shed_view, view-with_lane}

-- A run of the loop of `_shed_one`.
abbrev Sheds : ℕ → List MessagePriority → Queue → Type 0
Sheds incoming ps q =
    IsQueue (shed_from incoming ps q).1
    × ((shed_from incoming ps q).0 ≡ (shed_view incoming ps (view q)).0)
    × (view (shed_from incoming ps q).1 ≡ (shed_view incoming ps (view q)).1)

-- The count of the dropped messages is no part of the invariant.
pub counted-IsQueue : (n : ℕ) {q : Queue} → IsQueue q → IsQueue (record q { total_dropped = n })
counted-IsQueue n v = record {
  ranked = v.ranked;
  distinct = v.distinct;
  disjoint = v.disjoint;
  newest = v.newest;
  owned = v.owned;
  buried = v.buried;
}

set_at-tail :
    (p : MessagePriority) (v : Lanes) → is_nonempty (v p) ≡ false → set_at p (tail (v p)) v ≡ v
set_at-tail p v e = fun_ext λ p'. elim (Bool-cases (same_priority p p')) [
  | inr n ↦ rw n
  | inl same ↦ rw same (tail_of_empty (v p) e ∙ ap v ((same_priority_iff p p').0 same))
]
  where
    tail_of_empty : (l : List Entry) → is_nonempty l ≡ false → tail l ≡ l
    tail_of_empty [] e = unfold tail in refl
    tail_of_empty (x ∷ l) e = absurd (unfold is_nonempty in ground arith)

module _ (p : MessagePriority) {q : Queue} (v : IsQueue q) where
  shed : Queue
  shed = let (_, h, tombs) = shed_lane q.tombstones (q.lanes p) in with_lane p h tombs q

  shed-IsQueue : IsQueue shed
  unfolding shed
  shed-IsQueue = with_lane-IsQueue p v (shed_lane-LaneStep q.tombstones (q.lanes p) (v.distinct p))

  view-shed : view shed ≡ set_at p (tail (view q p)) (view q)
  unfolding shed
  view-shed =
      view-with_lane p v (shed_lane-LaneStep q.tombstones (q.lanes p) (v.distinct p))
      ∙ ap (λ (l : List Entry). set_at p l (view q)) shed-rest
    where
      shed-rest :
          alive (shed_lane q.tombstones (q.lanes p)).2 (shed_lane q.tombstones (q.lanes p)).1
          ≡ tail (view q p)
      shed-rest = unfold view in (shed_lane-tail q.tombstones (q.lanes p) (v.distinct p)).1

  shed-found : (shed_lane q.tombstones (q.lanes p)).0 ≡ is_nonempty (view q p)
  unfolding view
  shed-found = (shed_lane-tail q.tombstones (q.lanes p) (v.distinct p)).0

module _ (incoming : ℕ) (p : MessagePriority) (ps : List MessagePriority) {q : Queue}
    (v : IsQueue q) (go : leb (priority_order p) incoming ≡ false) where
  shed-now :
      is_nonempty (view q p) ≡ true
      → (shed_from incoming (p ∷ ps) q
          ≡ (true, record (shed p v) { total_dropped = q.total_dropped + 1 }))
        × (shed_view incoming (p ∷ ps) (view q) ≡ (true, set_at p (tail (view q p)) (view q)))
  unfolding shed_from shed_view shed
  shed-now e = (rw (go, shed-found p v ∙ e, shed_from), rw (go, e, shed_view))

  shed-later :
      is_nonempty (view q p) ≡ false
      → (shed_from incoming (p ∷ ps) q ≡ shed_from incoming ps (shed p v))
        × (shed_view incoming (p ∷ ps) (view q) ≡ shed_view incoming ps (view (shed p v)))
  unfolding shed_from shed_view shed
  shed-later e = (
    rw (go, shed-found p v ∙ e, shed_from),
    rw (go, e, shed_view)
        (ap (shed_view incoming ps) (sym (view-shed p v ∙ set_at-tail p (view q) e))),
  )

shed-stop :
    (incoming : ℕ) (p : MessagePriority) (ps : List MessagePriority) (q : Queue)
    → leb (priority_order p) incoming ≡ true
    → (shed_from incoming (p ∷ ps) q ≡ (false, q))
      × (shed_view incoming (p ∷ ps) (view q) ≡ (false, view q))
unfolding shed_from shed_view
shed-stop incoming p ps q stop = (rw (stop, shed_from), rw (stop, shed_view))

shed_from-refines :
    (incoming : ℕ) (ps : List MessagePriority) {q : Queue} → IsQueue q → Sheds incoming ps q
unfolding shed view
shed_from-refines incoming [] v = unfold shed_from shed_view in (v, refl, refl)
shed_from-refines incoming (p ∷ ps) {q} v = elim (Bool-cases (leb (priority_order p) incoming)) [
  | inl stop ↦
      rw ((shed-stop incoming p ps q stop).0, (shed-stop incoming p ps q stop).1) (v, refl, refl)
  | inr go ↦ elim (Bool-cases (is_nonempty (view q p))) [
    | inl e ↦
        let (run, plain) = shed-now incoming p ps v go e in
        rw (run, plain)
          (counted-IsQueue (q.total_dropped + 1) (shed-IsQueue p v), refl, view-shed p v)
    | inr e ↦
        let (run, plain) = shed-later incoming p ps v go e in
        rw (run, plain) (shed_from-refines incoming ps (shed-IsQueue p v))
  ]
]

-- From a queue with the invariant, `_shed_one` keeps it and drops the first entry, not compacted
-- out, of the lowest lane that has one and ranks below the incoming priority; it reports whether
-- there was one, and changes no other lane.
pub shed_one-refines :
    (incoming : MessagePriority) {q : Queue}
    → IsQueue q
    → IsQueue (shed_one incoming q).1
      × ((shed_one incoming q).0 ≡ (shed_view (priority_order incoming) shed_order (view q)).0)
      × (view (shed_one incoming q).1 ≡ (shed_view (priority_order incoming) shed_order (view q)).1)
unfolding shed_one
shed_one-refines incoming v = shed_from-refines (priority_order incoming) shed_order v

shed_from-keeps :
    (incoming : ℕ) (ps : List MessagePriority) (q : Queue)
    → ((shed_from incoming ps q).1.seq ≡ q.seq)
      × ((shed_from incoming ps q).1.compaction_enabled ≡ q.compaction_enabled)
unfolding shed_from
shed_from-keeps incoming [] q = (refl, refl)
shed_from-keeps incoming (p ∷ ps) q = ground (
  arith,
  shed_from-keeps incoming ps
      (with_lane p (shed_lane q.tombstones (q.lanes p)).1 (shed_lane q.tombstones (q.lanes p)).2 q),
)

-- Shedding leaves the counter of sequence numbers and the settings alone.
pub shed_one-keeps :
    (incoming : MessagePriority) (q : Queue)
    → ((shed_one incoming q).1.seq ≡ q.seq)
      × ((shed_one incoming q).1.compaction_enabled ≡ q.compaction_enabled)
unfolding shed_one
shed_one-keeps incoming q = shed_from-keeps (priority_order incoming) shed_order q
