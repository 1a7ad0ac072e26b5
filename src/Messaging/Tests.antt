-- ===== src/Messaging/Tests.antt =====
-- Runs of the messaging modules, and their theorems at concrete inputs.
use marga.Prelude.{
  All, length, ◌≤◌, List, ◌∷◌, [], ℕ, ◌+◌, ◌≡◌, refl, ◌⊎◌, String, true, false, some, [], ◌∷◌, ◌++◌,
  arith, keep,
}
use marga.Prelude.Dict
use marga.Messaging.Message.{
  critical_safety, regional_safety, MessagePriority, operational, analytics, priority_order,
  V2XMessage, is_expired,
}
use marga.Messaging.PriorityQueue.{
  Queue, has, add, discard, heappush, init, stored, is_full, shed_lane, shed_from, shed_one, admit,
  enqueue, pop_lane, clean_latest, clean, dequeue_from, dispatch_order, dequeue,
}
use marga.Messaging.PriorityQueue.Invariant.{IsQueue, init-IsQueue}
use marga.Messaging.PriorityQueue.Admit.{entry_of}
use marga.Messaging.PriorityQueue.View.{view, dequeue_view}
use marga.Messaging.PriorityQueue.Dequeue.{message_of, dequeue-refines}
use marga.Messaging.PriorityQueue.Enqueue.{enqueue_view, enqueue-refines}
use marga.Messaging.PriorityQueue.Ranks.{below, not_below}
use marga.Messaging.PriorityQueue.Bounded.{IsWithin, Call, enqueues, run, enqueue-IsWithin}
use marga.Messaging.PriorityQueue.Capacity.{stale_record-uncounted}

program : Unit {0}
unfolding priority_order is_expired has add discard heappush init is_full shed_lane shed_from
    shed_one admit enqueue pop_lane clean_latest clean dequeue_from dequeue keep Dict.get Dict.put
    Dict.pop
program = tt

abbrev message : ℕ → MessagePriority → String → V2XMessage
message n p s = record {
  message_id = n;
  schema_version = "0.1.0";
  priority = p;
  sender_id = s;
  timestamp = 0;
  ttl_s = 60;
}

abbrev now : ℕ
now = 1_000_000

abbrev small : Queue
small = init 1 true

-- The operational message sheds the analytics one of the first sender.
abbrev shed : Queue
shed = (enqueue now (message 2 operational "b") (enqueue now (message 1 analytics "a") small).1).1

abbrev emptied : Queue
emptied = (dequeue now shed).1

shed_runs : (dequeue now shed).0 ≡ some (message 2 operational "b")
unfolding program
shed_runs = refl

-- With a capacity of one, two messages are now taken in and both are delivered.
abbrev over : Queue
over = (enqueue now (message 4 analytics "c") (enqueue now (message 3 analytics "a") emptied).1).1

over_first : (dequeue now over).0 ≡ some (message 3 analytics "a")
unfolding program
over_first = refl

over_second : (dequeue now (dequeue now over).1).0 ≡ some (message 4 analytics "c")
unfolding program
over_second = refl

small-IsQueue : IsQueue small
small-IsQueue = init-IsQueue 1 true

one-IsQueue : IsQueue (enqueue now (message 1 analytics "a") small).1
one-IsQueue = (enqueue-refines now (message 1 analytics "a") small-IsQueue).0

shed-IsQueue : IsQueue shed
shed-IsQueue = (enqueue-refines now (message 2 operational "b") one-IsQueue).0

emptied-IsQueue : IsQueue emptied
emptied-IsQueue = (dequeue-refines now shed-IsQueue).0

dequeue-refines_example :
    IsQueue (dequeue now shed).1
    × (view (dequeue now shed).1 ≡ (dequeue_view now dispatch_order (view shed)).1)
    × ((dequeue now shed).0 ≡ message_of (dequeue_view now dispatch_order (view shed)).0)
dequeue-refines_example = dequeue-refines now shed-IsQueue

enqueue-refines_example :
    IsQueue (enqueue now (message 3 operational "b") shed).1
    × ((enqueue now (message 3 operational "b") shed).0
        ≡ (enqueue_view now
            (is_full shed)
            (shed.seq + 1)
            true
            (message 3 operational "b")
            (view shed)).0)
    × (view (enqueue now (message 3 operational "b") shed).1
        ≡ (enqueue_view now
            (is_full shed)
            (shed.seq + 1)
            true
            (message 3 operational "b")
            (view shed)).1)
unfolding program
enqueue-refines_example = enqueue-refines now (message 3 operational "b") shed-IsQueue

abbrev plain : Queue
plain = init 1 false

plain-IsWithin : IsWithin plain
unfolding init
plain-IsWithin = record { plain = refl; clear = refl; within = omega arith }

-- A full queue of one critical message, after one of the lowest priority was shed for it.
abbrev shedding : List Call
shedding =
    enqueues now (message 1 analytics "a") ∷ enqueues now (message 2 critical_safety "b") ∷ []

abbrev full : Queue
full = run shedding plain

enqueue-IsWithin_example :
    IsWithin full
    × IsWithin (enqueue now (message 3 regional_safety "c") full).1
    × (((enqueue now (message 3 regional_safety "c") full).0 ≡ true)
        ⊎ ((is_expired now (message 3 regional_safety "c") ≡ true)
            ⊎ ((stored full ≡ full.capacity)
                × All (λ p. full.lanes p ≡ []) (below regional_safety))))
    × All
        (λ p.
          length (full.lanes p)
          ≤ length ((enqueue now (message 3 regional_safety "c") full).1.lanes p))
        (not_below regional_safety)
enqueue-IsWithin_example =
    enqueue-IsWithin shedding now (message 3 regional_safety "c") plain-IsWithin

stale_record-uncounted_example :
    (view (admit (message 3 analytics "a") emptied) analytics
      ≡ view emptied analytics ++ entry_of (message 3 analytics "a") emptied ∷ [])
    × (is_full (admit (message 3 analytics "a") emptied) ≡ is_full emptied)
unfolding program
stale_record-uncounted_example =
    stale_record-uncounted (message 3 analytics "a") {prev = 1} emptied-IsQueue refl refl tt refl
