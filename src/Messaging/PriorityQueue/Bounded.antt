-- ===== src/Messaging/PriorityQueue/Bounded.antt =====
-- The bound of `MessagePriorityQueue` (services/messaging/marga_messaging/priority.py), and which messages it
-- refuses, without compaction.
use mathlib.Core.Path.{subst}
use marga.Prelude.{
  ℕ, ◌+◌, ◌≤◌, ◌≡◌, refl, sym, ap, ◌∙◌, ◌⊎◌, inl, inr, Bool, true, false, Option, List, [], ◌∷◌,
  arith, length, if◌then◌else◌, All, Bool-cases, Option-cases, string_eq,
}
use marga.Messaging.Message.{
  MessagePriority, critical_safety, regional_safety, operational, analytics, priority_order,
  same_priority, same_priority_iff, V2XMessage, is_expired,
}
use marga.Messaging.PriorityQueue.{
  Entry, Queue, has, stored, is_full, shed_lane, shed_from, shed_one, shed_order, admit, enqueue,
  pop_lane, clean, dequeue_from, dequeue, dispatch_order, heappush,
}
use marga.Messaging.PriorityQueue.Ranks.{
  shed_lane-clear, shed_one-none, shed_one-lanes, below, not_below, All-not_below,
}
use marga.Messaging.PriorityQueue.Capacity.{stored-with_lane, stored-admit}
use marga.Messaging.PriorityQueue.Shed.{shed_one-keeps}
use marga.Messaging.PriorityQueue.Invariant.{with_lane}

-- Without tombstones, shedding takes one stored entry if it reports one, and none if not.
Counts : Queue → Bool × Queue → Type 0
Counts q r =
    (r.1.tombstones ≡ [])
    × (r.1.capacity ≡ q.capacity)
    × (stored r.1 + (if r.0 then 1 else 0) ≡ stored q)

shed_from-Counts :
    (incoming : ℕ) (ps : List MessagePriority) (q : Queue)
    → q.tombstones ≡ []
    → Counts q (shed_from incoming ps q)
unfolding Counts shed_from
shed_from-Counts incoming [] q e = (e, refl, omega arith)
shed_from-Counts incoming (p ∷ ps) q e =
    let h : List Entry = (shed_lane q.tombstones (q.lanes p)).1 in
    let tombs : List ℕ = (shed_lane q.tombstones (q.lanes p)).2 in
    ground (
      arith,
      shed_lane-clear (q.lanes p),
      stored-with_lane p h tombs q,
      shed_from-Counts incoming ps (with_lane p h tombs q),
    )

shed_one-Counts :
    (incoming : MessagePriority) (q : Queue) → q.tombstones ≡ [] → Counts q (shed_one incoming q)
unfolding shed_one
shed_one-Counts incoming q e = shed_from-Counts (priority_order incoming) shed_order q e

-- Without compaction: no tombstones, and at most the capacity.
pub record IsWithin (q : Queue) : Type 0 where
  pub plain : q.compaction_enabled ≡ false
  pub clear : q.tombstones ≡ []
  pub within : stored q ≤ q.capacity

admit-plain :
    (m : V2XMessage) (q : Queue)
    → q.compaction_enabled ≡ false
    → ((admit m q).tombstones ≡ q.tombstones)
      × ((admit m q).capacity ≡ q.capacity)
      × ((admit m q).compaction_enabled ≡ false)
unfolding admit
admit-plain m q e = (ground arith, refl, e)

enqueue-plain :
    (now : ℕ) (m : V2XMessage) {q : Queue}
    → IsWithin q
    → IsWithin (enqueue now m q).1
      × (((enqueue now m q).0 ≡ true)
          ⊎ ((is_expired now m ≡ true)
              ⊎ ((stored q ≡ q.capacity) × ((shed_one m.priority q).0 ≡ false))))
unfolding enqueue is_full Counts
enqueue-plain now m {q} v = ground (
  arith,
  shed_one-keeps m.priority q,
  shed_one-Counts m.priority q v.clear,
  stored-admit m q,
  stored-admit m (shed_one m.priority q).1,
  admit-plain m q v.plain,
  admit-plain m (shed_one m.priority q).1,
)

length-heappush-le : (x : Entry) (h : List Entry) → length h ≤ length (heappush x h)
unfolding heappush
length-heappush-le x [] = omega arith
length-heappush-le x (y ∷ h) = ground (arith, length-heappush-le x h)

admit-lanes :
    (m : V2XMessage) (q : Queue) (p : MessagePriority)
    → length (q.lanes p) ≤ length ((admit m q).lanes p)
unfolding admit
admit-lanes m q p =
    let x : Entry = record { order = priority_order m.priority; seq = q.seq + 1; message = m } in
    elim (Bool-cases (same_priority m.priority p)) [
      | inr other ↦ rw other (omega arith)
      | inl same ↦
          let it = (same_priority_iff m.priority p).0 same in
          rw same (
            subst (λ r. length (q.lanes r) ≤ length (heappush x (q.lanes m.priority))) it
              (length-heappush-le x (q.lanes m.priority)))
    ]

enqueue-lanes :
    (now : ℕ) (m : V2XMessage) (q : Queue) (p : MessagePriority)
    → priority_order p ≤ priority_order m.priority
    → length (q.lanes p) ≤ length ((enqueue now m q).1.lanes p)
unfolding enqueue
enqueue-lanes now m q p low =
    let q' = (shed_one m.priority q).1 in
    let kept : length (q.lanes p) ≤ length (q'.lanes p) = shed_one-lanes m.priority p q low in
    ground (arith, kept, admit-lanes m q p, admit-lanes m q' p)

pop_lane-clear :
    (now : ℕ) (h : List Entry)
    → ((pop_lane now [] h).2 ≡ []) × (length (pop_lane now [] h).1 ≤ length h)
unfolding pop_lane has
pop_lane-clear now [] = (refl, omega arith)
pop_lane-clear now (x ∷ h) = ground (arith, pop_lane-clear now h)

clean-plain :
    (p : MessagePriority) (x : Entry) (q : Queue) → q.compaction_enabled ≡ false → clean p x q ≡ q
unfolding clean
clean-plain critical_safety x q e = refl
clean-plain regional_safety x q e = refl
clean-plain operational x q e = rw e refl
clean-plain analytics x q e = rw e refl

popped-IsWithin :
    (now : ℕ) (p : MessagePriority) {q : Queue}
    → IsWithin q
    → let (_, h, tombs) = pop_lane now q.tombstones (q.lanes p) in IsWithin (with_lane p h tombs q)
popped-IsWithin now p {q} v =
    let (_, h, tombs) = pop_lane now q.tombstones (q.lanes p) in
    let (clear, less) = pop_lane-clear now (q.lanes p) in
    let same = ap (λ t. pop_lane now t (q.lanes p)) v.clear in
    record {
      plain = v.plain;
      clear = ap (λ (r : Option Entry × List Entry × List ℕ). r.2) same ∙ clear;
      within =
          let fewer : length h ≤ length (q.lanes p) =
            rw (ap (λ (r : Option Entry × List Entry × List ℕ). r.1) same) less in
          omega (arith, stored-with_lane p h tombs q, fewer, v.within);
    }

dequeue_from-IsWithin :
    (now : ℕ) (ps : List MessagePriority) {q : Queue}
    → IsWithin q
    → IsWithin (dequeue_from now ps q).1
unfolding dequeue_from
dequeue_from-IsWithin now [] v = v
dequeue_from-IsWithin now (p ∷ ps) {q} v =
    let q' : Queue =
      with_lane p (pop_lane now q.tombstones (q.lanes p)).1
        (pop_lane now q.tombstones (q.lanes p)).2 q in
    let w : IsWithin q' = popped-IsWithin now p v in
    elim (Option-cases (pop_lane now q.tombstones (q.lanes p)).0) [
      | inl none_found ↦ rw (none_found, dequeue_from) (dequeue_from-IsWithin now ps w)
      | inr (x, hit) ↦ rw (hit, dequeue_from) (subst IsWithin (sym (clean-plain p x q' w.plain)) w)
    ]

-- A call of the queue at a time.
pub data Call : Type 0 where
  enqueues : ℕ → V2XMessage → Call
  dequeues : ℕ → Call

unfoldable pub run : List Call → Queue → Queue
unfolding enqueue dequeue
run [] q = q
run (enqueues now m ∷ cs) q = run cs (enqueue now m q).1
run (dequeues now ∷ cs) q = run cs (dequeue now q).1

run-IsWithin : (cs : List Call) {q : Queue} → IsWithin q → IsWithin (run cs q)
unfolding run dequeue
run-IsWithin [] v = v
run-IsWithin (enqueues now m ∷ cs) v = run-IsWithin cs (enqueue-plain now m v).0
run-IsWithin (dequeues now ∷ cs) v = run-IsWithin cs (dequeue_from-IsWithin now dispatch_order v)

refused :
    (now : ℕ) (m : V2XMessage) {q : Queue} {taken : Bool}
    → IsWithin q
    → (taken ≡ true)
      ⊎ ((is_expired now m ≡ true)
          ⊎ ((stored q ≡ q.capacity) × ((shed_one m.priority q).0 ≡ false)))
    → (taken ≡ true)
      ⊎ ((is_expired now m ≡ true)
          ⊎ ((stored q ≡ q.capacity) × All (λ p. q.lanes p ≡ []) (below m.priority)))
refused now m v (inl taken) = inl taken
refused now m v (inr (inl old)) = inr (inl old)
refused now m {q} v (inr (inr (full, none_shed))) =
    inr (inr (full, shed_one-none m.priority q v.clear none_shed))

-- Without compaction and tombstones, from a queue within its capacity: after any run of calls the queue holds
-- no more than its capacity, and so it does after one more `enqueue`. That one takes the message, unless
-- it has expired, or the queue is full and the lanes of all lower priorities are empty; and no lane of
-- the same or a higher priority gets shorter.
pub enqueue-IsWithin :
    (cs : List Call) (now : ℕ) (m : V2XMessage) {q : Queue}
    → IsWithin q
    → IsWithin (run cs q)
      × IsWithin (enqueue now m (run cs q)).1
      × (((enqueue now m (run cs q)).0 ≡ true)
          ⊎ ((is_expired now m ≡ true)
              ⊎ ((stored (run cs q) ≡ (run cs q).capacity)
                  × All (λ p. (run cs q).lanes p ≡ []) (below m.priority))))
      × All
          (λ p. length ((run cs q).lanes p) ≤ length ((enqueue now m (run cs q)).1.lanes p))
          (not_below m.priority)
enqueue-IsWithin cs now m {q} v =
    let w = run-IsWithin cs v in
    let (after, outcome) = enqueue-plain now m w in
    (
      w,
      after,
      refused now m w outcome,
      All-not_below _ m.priority (λ p low. enqueue-lanes now m (run cs q) p low),
    )
