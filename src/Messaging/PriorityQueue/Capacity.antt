-- ===== src/Messaging/PriorityQueue/Capacity.antt =====
-- The capacity of `MessagePriorityQueue` (services/messaging/marga_messaging/priority.py).
use text.Mathlib.TextEquality.{eq_iff}
use marga.Prelude.{
  ℕ, ◌+◌, ◌≡◌, refl, ◌⊎◌, true, false, some, List, [], ◌∷◌, ◌++◌, arith, length, All, String, ap,
  ◌∙◌, string_eq,
}
use marga.Prelude.Dict
use marga.Prelude.Dict.{Dict}
use marga.Messaging.Message.{
  MessagePriority, critical_safety, regional_safety, operational, analytics, priority_order,
  same_priority_iff, V2XMessage,
}
use marga.Messaging.PriorityQueue.{
  Entry, Queue, has, add, heappush, compacts, stored, is_full, admit,
}
use marga.Messaging.PriorityQueue.Sets.{Avoids, alive}
use marga.Messaging.PriorityQueue.Enqueue.{without_sender, admit_view, view-admit}
use marga.Messaging.PriorityQueue.Admit.{entry_of}
use marga.Messaging.PriorityQueue.View.{Lanes, view}
use marga.Messaging.PriorityQueue.Invariant.{IsQueue, with_lane}

pub stored-with_lane :
    (p : MessagePriority) (h : List Entry) (tombs : List ℕ) (q : Queue)
    → stored (with_lane p h tombs q) + length (q.lanes p) ≡ stored q + length h
stored-with_lane critical_safety h tombs q = omega arith
stored-with_lane regional_safety h tombs q = omega arith
stored-with_lane operational h tombs q = omega arith
stored-with_lane analytics h tombs q = omega arith

length-heappush : (x : Entry) (h : List Entry) → length (heappush x h) ≡ length h + 1
unfolding heappush
length-heappush x [] = omega arith
length-heappush x (y ∷ h) = ground (arith, length-heappush x h)

pub stored-admit : (m : V2XMessage) (q : Queue) → stored (admit m q) ≡ stored q + 1
unfolding admit
stored-admit m q =
    let p = m.priority in
    let x : Entry = record { order = priority_order p; seq = q.seq + 1; message = m } in
    omega (
      arith,
      stored-with_lane p (heappush x (q.lanes p)) q.tombstones q,
      length-heappush x (q.lanes p),
    )

admit-capacity : (m : V2XMessage) (q : Queue) → (admit m q).capacity ≡ q.capacity
unfolding admit
admit-capacity m q = refl

no_entry_of :
    (tombs : List ℕ) (latest : Dict String ℕ) (s : String) (prev : ℕ) (h : List Entry)
    → Dict.get s latest ≡ some prev
    → All
        (λ (y : Entry).
          (has y.seq tombs ≡ true) ⊎ (Dict.get y.message.sender_id latest ≡ some y.seq))
        h
    → Avoids prev h
    → without_sender s (alive tombs h) ≡ alive tombs h
unfolding without_sender alive
no_entry_of tombs latest s prev [] e new gone = refl
no_entry_of tombs latest s prev (y ∷ h) e new gone =
    ground (arith, no_entry_of tombs latest s prev h e new.1 gone.1, eq_iff s y.message.sender_id)

length-add : (k : ℕ) (s : List ℕ) → has k s ≡ false → length (add k s) ≡ length s + 1
unfolding add
length-add k s e = rw e (omega arith)

lane_after :
    (m : V2XMessage) {q : Queue}
    → IsQueue q
    → compacts q.compaction_enabled m.priority ≡ true
    → without_sender m.sender_id (view q m.priority) ≡ view q m.priority
    → admit_view (compacts q.compaction_enabled m.priority) (entry_of m q) (view q) m.priority
      ≡ view q m.priority ++ entry_of m q ∷ []
unfolding admit_view
lane_after m {q} v on e = rw ((same_priority_iff m.priority m.priority).1 refl, on, e)

admit-tombstones :
    (m : V2XMessage) (q : Queue) {prev : ℕ}
    → compacts q.compaction_enabled m.priority ≡ true
    → Dict.get m.sender_id (q.latest_by_sender m.priority) ≡ some prev
    → has prev q.tombstones ≡ false
    → length (admit m q).tombstones ≡ length q.tombstones + 1
unfolding admit
admit-tombstones m q {prev} on e new = rw (on, e) (length-add prev q.tombstones new)

full_after :
    (m : V2XMessage) (q : Queue)
    → length (admit m q).tombstones ≡ length q.tombstones + 1
    → is_full (admit m q) ≡ is_full q
unfolding is_full
full_after m q e = ground (arith, stored-admit m q, admit-capacity m q)

-- A sender's record may point to an entry that was shed or expired. Then the next message of the
-- sender is stored and nothing goes, while the size that the capacity test reads stays the same.
pub stale_record-uncounted :
    (m : V2XMessage) {q : Queue} {prev : ℕ}
    → IsQueue q
    → compacts q.compaction_enabled m.priority ≡ true
    → Dict.get m.sender_id (q.latest_by_sender m.priority) ≡ some prev
    → Avoids prev (q.lanes m.priority)
    → has prev q.tombstones ≡ false
    → (view (admit m q) m.priority ≡ view q m.priority ++ entry_of m q ∷ [])
      × (is_full (admit m q) ≡ is_full q)
unfolding view
stale_record-uncounted m {q} {prev} v on e gone new = (
  ap (λ (w : Lanes). w m.priority) (view-admit m v)
      ∙ lane_after m v on (no_entry_of _ _ _ prev _ e (v.newest m.priority on) gone),
  full_after m q (admit-tombstones m q on e new),
)
