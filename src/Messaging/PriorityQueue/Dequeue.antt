-- ===== src/Messaging/PriorityQueue/Dequeue.antt =====
-- `dequeue` of services/messaging/marga_messaging/priority.py against plain queues.
use marga.Prelude.{
  ℕ, ◌≡◌, refl, sym, Option, none, some, List, [], ◌∷◌, Bool-cases, inl, inr, ◌∙◌, ap, Option-cases,
}
use marga.Messaging.Message.{MessagePriority, same_priority_iff, V2XMessage}
use marga.Messaging.PriorityQueue.{
  Entry, Queue, set_at, pop_lane, clean, dequeue_from, dispatch_order, dequeue, compacts,
}
use marga.Messaging.PriorityQueue.Sets.{alive}
use marga.Messaging.PriorityQueue.Lane.{
  LaneStep, pop_lane-LaneStep, fresh, pop_lane-fresh, pop_lane-gone,
}
use marga.Messaging.PriorityQueue.Invariant.{IsQueue, with_lane, with_lane-IsQueue, clean-IsQueue}
use marga.Messaging.PriorityQueue.View.{view, dequeue_view, view-with_lane}

view-clean : (p : MessagePriority) (x : Entry) (q : Queue) → view (clean p x q) ≡ view q
unfolding view clean
view-clean p x q = elim (Bool-cases (compacts q.compaction_enabled p)) [
  | inl e ↦ rw e
  | inr e ↦ rw e
]

abbrev pub message_of : Option Entry → Option V2XMessage
message_of none = none
message_of (some x) = some x.message

-- A run of the loop of `dequeue`: the invariant after it, the view after it, and the message.
abbrev Dequeues : ℕ → List MessagePriority → Queue → Type 0
Dequeues now ps q =
    IsQueue (dequeue_from now ps q).1
    × (view (dequeue_from now ps q).1 ≡ (dequeue_view now ps (view q)).1)
    × ((dequeue_from now ps q).0 ≡ message_of (dequeue_view now ps (view q)).0)

module _ (now : ℕ) (p : MessagePriority) {q : Queue} (v : IsQueue q) where
  popped : Queue
  popped = let (_, h, tombs) = pop_lane now q.tombstones (q.lanes p) in with_lane p h tombs q

  lane_step :
      LaneStep q.tombstones
        (q.lanes p)
        (pop_lane now q.tombstones (q.lanes p)).2
        (pop_lane now q.tombstones (q.lanes p)).1
  lane_step = pop_lane-LaneStep now q.tombstones (q.lanes p) (v.distinct p)

  popped-IsQueue : IsQueue popped
  unfolding popped
  popped-IsQueue = with_lane-IsQueue p v lane_step

  fresh-view : fresh now (view q p) ≡ (
    (pop_lane now q.tombstones (q.lanes p)).0,
    alive (pop_lane now q.tombstones (q.lanes p)).2 (pop_lane now q.tombstones (q.lanes p)).1,
  )
  unfolding view
  fresh-view = pop_lane-fresh now q.tombstones (q.lanes p) (v.distinct p)

  view-popped : view popped ≡ set_at p (fresh now (view q p)).1 (view q)
  unfolding popped
  view-popped =
      view-with_lane p v lane_step
      ∙ ap (λ (r : Option Entry × List Entry). set_at p r.1 (view q)) (sym fresh-view)

  clean-popped :
      (x : Entry) → (pop_lane now q.tombstones (q.lanes p)).0 ≡ some x → IsQueue (clean p x popped)
  unfolding popped
  clean-popped x e = clean-IsQueue p x popped-IsQueue (
      rw ((same_priority_iff p p).1 refl)
        (pop_lane-gone now q.tombstones (q.lanes p) x (v.distinct p) e))

module _ (now : ℕ) (p : MessagePriority) (ps : List MessagePriority) {q : Queue}
    (v : IsQueue q) where
  fresh-found : (fresh now (view q p)).0 ≡ (pop_lane now q.tombstones (q.lanes p)).0
  fresh-found = ap (λ (r : Option Entry × List Entry). r.0) (fresh-view now p v)

  run-none :
      (pop_lane now q.tombstones (q.lanes p)).0 ≡ none
      → dequeue_from now (p ∷ ps) q ≡ dequeue_from now ps (popped now p v)
  unfolding dequeue_from popped
  run-none e = rw (e, dequeue_from)

  run-some :
      (x : Entry)
      → (pop_lane now q.tombstones (q.lanes p)).0 ≡ some x
      → dequeue_from now (p ∷ ps) q ≡ (some x.message, clean p x (popped now p v))
  unfolding dequeue_from popped
  run-some x e = rw (e, dequeue_from)

  view-none :
      (pop_lane now q.tombstones (q.lanes p)).0 ≡ none
      → dequeue_view now (p ∷ ps) (view q) ≡ dequeue_view now ps (view (popped now p v))
  unfolding dequeue_view
  view-none e = rw (view-popped now p v, fresh-found ∙ e, dequeue_view)

  view-some :
      (x : Entry)
      → (pop_lane now q.tombstones (q.lanes p)).0 ≡ some x
      → dequeue_view now (p ∷ ps) (view q) ≡ (some x, view (popped now p v))
  unfolding dequeue_view
  view-some x e = rw (view-popped now p v, fresh-found ∙ e, dequeue_view)

dequeue_from-refines :
    (now : ℕ) (ps : List MessagePriority) {q : Queue} → IsQueue q → Dequeues now ps q
dequeue_from-refines now [] v = unfold dequeue_from dequeue_view in (v, refl, refl)
dequeue_from-refines now (p ∷ ps) {q} v =
    elim (Option-cases (pop_lane now q.tombstones (q.lanes p)).0) [
      | inl e ↦
          rw (run-none now p ps v e, view-none now p ps v e)
            (dequeue_from-refines now ps (popped-IsQueue now p v))
      | inr (x, e) ↦
          rw (run-some now p ps v x e, view-some now p ps v x e)
            (clean-popped now p v x e, view-clean p x (popped now p v), refl)
    ]

-- From a queue with the invariant, `dequeue` keeps it, returns the message of the first entry that
-- has not expired in the first lane, by priority, that has one, and drops from each lane exactly
-- the expired entries that it went past and the one returned.
pub dequeue-refines :
    (now : ℕ) {q : Queue}
    → IsQueue q
    → IsQueue (dequeue now q).1
      × (view (dequeue now q).1 ≡ (dequeue_view now dispatch_order (view q)).1)
      × ((dequeue now q).0 ≡ message_of (dequeue_view now dispatch_order (view q)).0)
unfolding dequeue
dequeue-refines now v = dequeue_from-refines now dispatch_order v
