-- ===== src/Messaging/PriorityQueue.antt =====
-- services/messaging/marga_messaging/priority.py, `MessagePriorityQueue`. A heap of `heapq` is the
-- list of its entries in order, which determines what `lane[0]` and `heappop` return: no two entries
-- have one sequence number. One reading of the clock stands for those of one call.
pub mod Sets
pub mod Lane
pub mod Invariant
pub mod Admit
pub mod View
pub mod Dequeue
pub mod Shed
pub mod Enqueue
pub mod Capacity
pub mod Ranks
pub mod Bounded
use marga.Prelude.{
  ℕ, ◌+◌, ◌≤◌, String, Bool, true, false, not, ◌&&◌, ◌||◌, Option, none, some, List, [], ◌∷◌,
  if◌then◌else◌, ltb, leb, nat_eqb, length, keep, string_eq,
}
use marga.Prelude.Dict
use marga.Prelude.Dict.{Dict}
use marga.Messaging.Message.{
  MessagePriority, critical_safety, regional_safety, operational, analytics, priority_order,
  same_priority, V2XMessage, is_expired,
}

-- An entry of a heap: `(_PRIORITY_ORDER[priority], seq, message)`.
pub record Entry : Type 0 where
  pub order : ℕ
  pub seq : ℕ
  pub message : V2XMessage

abbrev less : Entry → Entry → Bool
less x y = ltb x.order y.order || nat_eqb x.order y.order && ltb x.seq y.seq

-- `heapq.heappush`
unfoldable pub heappush : Entry → List Entry → List Entry
heappush x [] = x ∷ []
heappush x (y ∷ h) = if less x y then x ∷ y ∷ h else y ∷ heappush x h

-- `_SHED_ORDER`
abbrev pub shed_order : List MessagePriority
shed_order = analytics ∷ operational ∷ regional_safety ∷ critical_safety ∷ []

-- `_SHED_ORDER[::-1]`
abbrev pub dispatch_order : List MessagePriority
dispatch_order = critical_safety ∷ regional_safety ∷ operational ∷ analytics ∷ []

-- A set of sequence numbers.
unfoldable pub has : ℕ → List ℕ → Bool
has k [] = false
has k (j ∷ s) = nat_eqb j k || has k s

unfoldable pub add : ℕ → List ℕ → List ℕ
unfolding has
add k s = if has k s then s else k ∷ s

unfoldable pub discard : ℕ → List ℕ → List ℕ
unfolding keep
discard k = keep (λ j. not (nat_eqb j k))

pub record Queue : Type 0 where
  pub capacity : ℕ
  pub compaction_enabled : Bool
  pub lanes : MessagePriority → List Entry
  pub latest_by_sender : MessagePriority → Dict String ℕ
  pub tombstones : List ℕ
  pub seq : ℕ
  pub total_enqueued : ℕ
  pub total_dropped : ℕ

-- A dict over the four priorities with one value replaced.
abbrev pub set_at {ℓ} :
    {A : Type ℓ} → MessagePriority → A → (MessagePriority → A) → MessagePriority → A
set_at p a f q = if same_priority p q then a else f q

unfoldable pub init : ℕ → Bool → Queue
init capacity compaction_enabled = record {
  capacity = capacity;
  compaction_enabled = compaction_enabled;
  lanes = λ _. [];
  latest_by_sender = λ _. [];
  tombstones = [];
  seq = 0;
  total_enqueued = 0;
  total_dropped = 0;
}

-- Latest-state compaction is on in this lane.
abbrev pub compacts : Bool → MessagePriority → Bool
compacts enabled operational = enabled
compacts enabled analytics = enabled
compacts enabled _ = false

abbrev pub stored : Queue → ℕ
stored q =
    length (q.lanes critical_safety)
    + length (q.lanes regional_safety)
    + length (q.lanes operational)
    + length (q.lanes analytics)

-- `_total_size >= capacity`; `_total_size` is the entries less the tombstones, and may be negative.
unfoldable pub is_full : Queue → Bool
is_full q = leb (q.capacity + length q.tombstones) (stored q)

-- `while lane` in `_shed_one`: whether a message was shed, the heap and the tombstones.
unfoldable pub shed_lane : List ℕ → List Entry → Bool × List Entry × List ℕ
shed_lane tombs [] = (false, [], tombs)
shed_lane tombs (x ∷ h) = elim (has x.seq tombs) [
  | true ↦ shed_lane (discard x.seq tombs) h
  | false ↦ (true, h, tombs)
]

-- The loop of `_shed_one` over the lanes.
unfoldable pub shed_from : ℕ → List MessagePriority → Queue → Bool × Queue
shed_from incoming [] q = (false, q)
shed_from incoming (p ∷ ps) q =
    let (shed, h, tombs) = shed_lane q.tombstones (q.lanes p) in
    let q' : Queue = record q { lanes = set_at p h q.lanes; tombstones = tombs } in
    let rest : Bool × Queue = shed_from incoming ps q' in
    if leb (priority_order p) incoming
    then (false, q)
    else if shed
    then (true, record q' { total_dropped = q'.total_dropped + 1 })
    else rest

unfoldable pub shed_one : MessagePriority → Queue → Bool × Queue
unfolding shed_from
shed_one incoming q = shed_from (priority_order incoming) shed_order q

-- The part of `enqueue` under a free place.
unfoldable pub admit : V2XMessage → Queue → Queue
admit m q =
    let p = m.priority in
    let seq = q.seq + 1 in
    let latest = q.latest_by_sender p in
    let compacting = compacts q.compaction_enabled p in
    record q {
      seq = seq;
      tombstones =
          if compacting
          then elim (Dict.get m.sender_id latest) [
            | none ↦ q.tombstones
            | some prev ↦ add prev q.tombstones
          ]
          else q.tombstones;
      latest_by_sender =
          if compacting
          then set_at p (Dict.put m.sender_id seq latest) q.latest_by_sender
          else q.latest_by_sender;
      lanes =
          set_at p
            (heappush (record { order = priority_order p; seq = seq; message = m }) (q.lanes p))
            q.lanes;
      total_enqueued = q.total_enqueued + 1;
    }

unfoldable pub enqueue : ℕ → V2XMessage → Queue → Bool × Queue
enqueue now m q =
    let (shed, q') = shed_one m.priority q in
    if is_expired now m
    then (false, q)
    else if is_full q
    then if shed
      then (true, admit m q')
      else (false, record q' { total_dropped = q'.total_dropped + 1 })
    else (true, admit m q)

-- `while lane` in `dequeue`: the entry returned, the heap and the tombstones.
unfoldable pub pop_lane : ℕ → List ℕ → List Entry → Option Entry × List Entry × List ℕ
pop_lane now tombs [] = (none, [], tombs)
pop_lane now tombs (x ∷ h) = elim (has x.seq tombs) [
  | true ↦ pop_lane now (discard x.seq tombs) h
  | false ↦ elim (is_expired now x.message) [
    | true ↦ pop_lane now tombs h
    | false ↦ (some x, h, tombs)
  ]
]

-- `Clean compaction tracking`: the sender's record goes if it points to the returned entry.
unfoldable pub clean_latest : Entry → Dict String ℕ → Dict String ℕ
clean_latest x latest = elim (Dict.get x.message.sender_id latest) [
  | none ↦ latest
  | some seq ↦ if nat_eqb seq x.seq then Dict.pop x.message.sender_id latest else latest
]

unfoldable pub clean : MessagePriority → Entry → Queue → Queue
clean p x q =
    if compacts q.compaction_enabled p
    then record q {
      latest_by_sender = set_at p (clean_latest x (q.latest_by_sender p)) q.latest_by_sender;
    }
    else q

-- The loop of `dequeue` over the lanes.
unfoldable pub dequeue_from : ℕ → List MessagePriority → Queue → Option V2XMessage × Queue
dequeue_from now [] q = (none, q)
dequeue_from now (p ∷ ps) q =
    let (found, h, tombs) = pop_lane now q.tombstones (q.lanes p) in
    let q' : Queue = record q { lanes = set_at p h q.lanes; tombstones = tombs } in
    let rest : Option V2XMessage × Queue = dequeue_from now ps q' in
    elim found [ none ↦ rest | some x ↦ (some x.message, clean p x q') ]

unfoldable pub dequeue : ℕ → Queue → Option V2XMessage × Queue
unfolding dequeue_from
dequeue now q = dequeue_from now dispatch_order q
