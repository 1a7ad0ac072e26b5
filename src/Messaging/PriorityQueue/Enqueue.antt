-- ===== src/Messaging/PriorityQueue/Enqueue.antt =====
-- `enqueue` of services/messaging/marga_messaging/priority.py against plain queues.
use mathlib.Core.Path.{subst}
use text.Mathlib.TextEquality.{eq_iff}
use marga.Prelude.{
  ℕ, ◌+◌, ◌≡◌, refl, ◌∙◌, inl, inr, String, Bool, true, false, some, List, [], ◌∷◌, ◌++◌, arith,
  if◌then◌else◌, All, All-map, All-zip, Bool-cases, string_eq, ◌==◌, Option-cases,
}
use marga.Prelude.Dict
use marga.Messaging.Message.{
  MessagePriority, priority_order, same_priority, same_priority_iff, V2XMessage, is_expired,
}
use marga.Messaging.PriorityQueue.{Entry, Queue, has, set_at, compacts, admit}
use marga.Messaging.PriorityQueue.Sets.{has-add}
use marga.Messaging.PriorityQueue.Invariant.{Newest, Owned, IsQueue}
use mathlib.Core.Path.{fun_ext, ap₂}
use marga.Messaging.PriorityQueue.Sets.{alive-same}
use marga.Prelude.{keep, not, ◌||◌}
use marga.Messaging.PriorityQueue.{is_full, shed_one, shed_order, enqueue}
use marga.Messaging.PriorityQueue.Sets.{alive}
use marga.Messaging.PriorityQueue.Admit.{entry_of, lanes-admit, admit-IsQueue}
use marga.Messaging.PriorityQueue.View.{Lanes, view, shed_view}
use marga.Messaging.PriorityQueue.Shed.{shed_one-refines, shed_one-keeps, counted-IsQueue}

unfoldable pub without_sender : String → List Entry → List Entry
unfolding keep
without_sender s = keep (λ y. not (s == y.message.sender_id))

-- Taking in a message on plain queues: at the end of its lane, in place of the sender's former
-- message where the lane compacts.
unfoldable pub admit_view : Bool → Entry → Lanes → Lanes
unfolding without_sender
admit_view compacting x v =
    let p = x.message.priority in
    set_at p ((if compacting then without_sender x.message.sender_id (v p) else v p) ++ x ∷ []) v

alive-append :
    (tombs : List ℕ) (h k : List Entry) → alive tombs (h ++ k) ≡ alive tombs h ++ alive tombs k
unfolding alive
alive-append tombs [] k = refl
alive-append tombs (x ∷ h) k = ground (arith, alive-append tombs h k)

-- Where the new tombstones are those of one sender, his entries are the ones that go.
alive-without :
    (tombs tombs' : List ℕ) (s : String) (h : List Entry)
    → All (λ (y : Entry). has y.seq tombs' ≡ (has y.seq tombs || s == y.message.sender_id)) h
    → alive tombs' h ≡ without_sender s (alive tombs h)
unfolding alive without_sender
alive-without tombs tombs' s [] a = refl
alive-without tombs tombs' s (x ∷ h) a = ground (arith, alive-without tombs tombs' s h a.1)

module _ (m : V2XMessage) {q : Queue} (v : IsQueue q) where
  -- In a lane that compacts, the new tombstones are those of the sender.
  has-admit_same :
      (y : Entry)
      → compacts q.compaction_enabled m.priority ≡ true
      → Newest q m.priority y
      → ((j : ℕ)
          → Dict.get m.sender_id (q.latest_by_sender m.priority) ≡ some j
          → Owned m.priority m.sender_id j m.priority y)
      → has y.seq (admit m q).tombstones
        ≡ (has y.seq q.tombstones || m.sender_id == y.message.sender_id)
  unfolding admit
  has-admit_same y on new own =
      elim (Option-cases (Dict.get m.sender_id (q.latest_by_sender m.priority))) [
        | inl e ↦ ground (arith, eq_iff m.sender_id y.message.sender_id)
        | inr (prev, e) ↦
            let o = own prev e in
            ground (arith, has-add prev y.seq q.tombstones, eq_iff m.sender_id y.message.sender_id)
      ]

  -- Elsewhere the tombstones of the entries do not change.
  has-admit_other :
      (p : MessagePriority) (y : Entry)
      → same_priority m.priority p ≡ false
      → ((j : ℕ)
          → Dict.get m.sender_id (q.latest_by_sender m.priority) ≡ some j
          → Owned m.priority m.sender_id j p y)
      → has y.seq (admit m q).tombstones ≡ has y.seq q.tombstones
  unfolding admit
  has-admit_other p y n own =
      elim (Option-cases (Dict.get m.sender_id (q.latest_by_sender m.priority))) [
        | inl e ↦ ground arith
        | inr (prev, e) ↦
            let o = own prev e in
            ground (arith, has-add prev y.seq q.tombstones, same_priority_iff m.priority p)
      ]

  has-admit_off :
      compacts q.compaction_enabled m.priority ≡ false → (admit m q).tombstones ≡ q.tombstones
  unfolding admit
  has-admit_off off = ground arith

  has-admit_new : has (q.seq + 1) (admit m q).tombstones ≡ false
  unfolding admit
  has-admit_new = elim (Option-cases (Dict.get m.sender_id (q.latest_by_sender m.priority))) [
    | inl e ↦ ground (arith, v.buried (q.seq + 1))
    | inr (prev, e) ↦
        let (le, _) = v.owned m.priority m.sender_id prev e in
        ground (arith, has-add prev (q.seq + 1) q.tombstones, v.buried (q.seq + 1))
  ]

  Owned-All :
      (p : MessagePriority)
      → All
          (λ (y : Entry).
            (j : ℕ)
            → Dict.get m.sender_id (q.latest_by_sender m.priority) ≡ some j
            → Owned m.priority m.sender_id j p y)
          (q.lanes p)
  Owned-All p = elim (Option-cases (Dict.get m.sender_id (q.latest_by_sender m.priority))) [
    | inl e ↦ All-map (q.lanes p) (λ y r j e'. absurd (ground arith)) (v.ranked p)
    | inr (prev, e) ↦
        let (_, all) = v.owned m.priority m.sender_id prev e in
        All-map (q.lanes p)
          (λ y o j e'.
            let same : prev ≡ j = ground arith in
            subst (λ k. Owned m.priority m.sender_id k p y) same o)
          (all p)
  ]

  alive-entry : alive (admit m q).tombstones (entry_of m q ∷ []) ≡ entry_of m q ∷ []
  unfolding alive
  alive-entry = rw has-admit_new

  -- The lane of the message, before the new entry.
  alive-lane : alive (admit m q).tombstones (q.lanes m.priority) ≡ (
      if compacts q.compaction_enabled m.priority
      then without_sender m.sender_id (view q m.priority)
      else view q m.priority)
  unfolding view
  alive-lane = elim (Bool-cases (compacts q.compaction_enabled m.priority)) [
    | inl on ↦ rw on (
        alive-without q.tombstones (admit m q).tombstones m.sender_id (q.lanes m.priority) (
          All-zip (q.lanes m.priority) (λ y new own. has-admit_same y on new own)
            (v.newest m.priority on) (Owned-All m.priority)))
    | inr off ↦ rw (off, has-admit_off off)
  ]

  pub view-admit :
      view (admit m q)
      ≡ admit_view (compacts q.compaction_enabled m.priority) (entry_of m q) (view q)
  unfolding view admit_view
  view-admit = fun_ext λ p. elim (Bool-cases (same_priority m.priority p)) [
    | inl e ↦
        rw (lanes-admit m v, e)
          (alive-append (admit m q).tombstones (q.lanes m.priority) (entry_of m q ∷ [])
            ∙ ap₂ ◌++◌ alive-lane alive-entry)
    | inr n ↦
        rw (lanes-admit m v, n)
          (alive-same q.tombstones (admit m q).tombstones (q.lanes p)
            (All-map (q.lanes p) (λ y own. has-admit_other p y n own) (Owned-All p)))
  ]

-- `enqueue` on plain queues: whether the message is taken in, and the queues after it. `full` is
-- the capacity test and `n` the sequence number.
unfoldable pub enqueue_view : ℕ → Bool → ℕ → Bool → V2XMessage → Lanes → Bool × Lanes
enqueue_view now full n compacting m v =
    let x : Entry = record { order = priority_order m.priority; seq = n; message = m } in
    let (shed, w) = shed_view (priority_order m.priority) shed_order v in
    if is_expired now m
    then (false, v)
    else if full
    then if shed then (true, admit_view compacting x w) else (false, w)
    else (true, admit_view compacting x v)

module _ (now : ℕ) (m : V2XMessage) {q : Queue} (v : IsQueue q) where
  shed-IsQueue : IsQueue (shed_one m.priority q).1
  shed-IsQueue = (shed_one-refines m.priority v).0

  found : (shed_one m.priority q).0 ≡ (shed_view (priority_order m.priority) shed_order (view q)).0
  found = (shed_one-refines m.priority v).1

  plain :
      view (shed_one m.priority q).1 ≡ (shed_view (priority_order m.priority) shed_order (view q)).1
  plain = (shed_one-refines m.priority v).2

  view-admit_shed :
      view (admit m (shed_one m.priority q).1)
      ≡ admit_view
          (compacts q.compaction_enabled m.priority)
          (entry_of m q)
          (shed_view (priority_order m.priority) shed_order (view q)).1
  view-admit_shed =
      let (same_seq, same_setting) = shed_one-keeps m.priority q in
      view-admit m shed-IsQueue ∙ (λ i.
        admit_view (compacts (same_setting i) m.priority)
          (record { order = priority_order m.priority; seq = same_seq i + 1; message = m })
          (plain i))

  -- From a queue with the invariant, `enqueue` keeps it. An expired message is refused and changes
  -- nothing. At the capacity one message of lower priority is shed, or else the message is refused.
  -- A message taken in goes to the end of its lane, and where the lane compacts the former message
  -- of its sender goes; no other message moves.
  pub enqueue-refines :
      IsQueue (enqueue now m q).1
      × ((enqueue now m q).0
          ≡ (enqueue_view now
              (is_full q)
              (q.seq + 1)
              (compacts q.compaction_enabled m.priority)
              m
              (view q)).0)
      × (view (enqueue now m q).1
          ≡ (enqueue_view now
              (is_full q)
              (q.seq + 1)
              (compacts q.compaction_enabled m.priority)
              m
              (view q)).1)
  unfolding enqueue enqueue_view
  enqueue-refines = elim (Bool-cases (is_expired now m)) [
    | inl old ↦ rw (old, enqueue, enqueue_view) (v, refl, refl)
    | inr new ↦ elim (Bool-cases (is_full q)) [
      | inr room ↦ rw (new, room, enqueue, enqueue_view) (admit-IsQueue m v, refl, view-admit m v)
      | inl full ↦ elim (Bool-cases (shed_one m.priority q).0) [
        | inl yes' ↦
            rw (new, full, yes', enqueue, enqueue_view, ← found, yes')
              (admit-IsQueue m shed-IsQueue, refl, view-admit_shed)
        | inr no' ↦
            rw (new, full, no', enqueue, enqueue_view, ← found, no')
              (
                counted-IsQueue ((shed_one m.priority q).1.total_dropped + 1) shed-IsQueue,
                refl,
                unfold view in plain,
              )
      ]
    ]
  ]
