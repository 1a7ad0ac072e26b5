-- ===== src/Messaging/PriorityQueue/View.antt =====
-- What services/messaging/marga_messaging/priority.py promises, on four plain queues: the entries of
-- each lane that are not compacted out.
use marga.Prelude.{
  ℕ, ◌≡◌, Bool, true, false, Option, none, some, List, [], ◌∷◌, leb, if◌then◌else◌, Bool-cases, inl,
  inr,
}
use mathlib.Core.Path.{fun_ext}
use marga.Messaging.Message.{MessagePriority, priority_order, same_priority}
use marga.Messaging.PriorityQueue.{Entry, Queue, set_at}
use marga.Messaging.PriorityQueue.Sets.{alive, alive-same}
use marga.Messaging.PriorityQueue.Lane.{LaneStep, fresh, tail, is_nonempty}
use marga.Messaging.PriorityQueue.Invariant.{IsQueue, with_lane, kept_at}

abbrev pub Lanes : Type 0
Lanes = MessagePriority → List Entry

-- The abstract state: each lane without what is compacted out.
unfoldable pub view : Queue → Lanes
view q p = alive q.tombstones (q.lanes p)

-- `dequeue` on plain queues: the first entry that has not expired, of the first lane that has one.
unfoldable pub dequeue_view : ℕ → List MessagePriority → Lanes → Option Entry × Lanes
dequeue_view now [] v = (none, v)
dequeue_view now (p ∷ ps) v =
    let (found, l) = fresh now (v p) in
    let rest : Option Entry × Lanes = dequeue_view now ps (set_at p l v) in
    elim found [ none ↦ rest | some x ↦ (some x, set_at p l v) ]

-- `_shed_one` on plain queues: the first entry of the first lane below the incoming rank.
unfoldable pub shed_view : ℕ → List MessagePriority → Lanes → Bool × Lanes
shed_view incoming [] v = (false, v)
shed_view incoming (p ∷ ps) v =
    let rest : Bool × Lanes = shed_view incoming ps v in
    if leb (priority_order p) incoming
    then (false, v)
    else if is_nonempty (v p)
    then (true, set_at p (tail (v p)) v)
    else rest

-- A loop over one lane changes the view of that lane only.
pub view-with_lane :
    (p : MessagePriority) {h : List Entry} {tombs : List ℕ} {q : Queue}
    → IsQueue q
    → LaneStep q.tombstones (q.lanes p) tombs h
    → view (with_lane p h tombs q) ≡ set_at p (alive tombs h) (view q)
unfolding view
view-with_lane p {h} {tombs} {q} v s = fun_ext λ p'. elim (Bool-cases (same_priority p p')) [
  | inl e ↦ rw e
  | inr n ↦ rw n (alive-same q.tombstones tombs (q.lanes p') (rw n at (kept_at p v s p')))
]
