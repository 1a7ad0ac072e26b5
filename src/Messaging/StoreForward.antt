-- ===== src/Messaging/StoreForward.antt =====
-- services/messaging/marga_messaging/store_forward.py, `StoreForwardManager`. The clock, and the
-- UUID that a new entry gets, are arguments.
pub mod Agreement
pub mod Contents
pub mod Order
pub mod Flush
mod Tests
use marga.Prelude.{
  ℕ, ◌+◌, String, Bool, true, false, Option, none, some, List, [], ◌∷◌, map, if◌then◌else◌, ltb,
  leb, length, keep, nat_eq, string_eq, pair_eq,
}
use marga.Prelude.Dict
use marga.Prelude.Dict.{Dict}
use marga.Messaging.Message.{V2XMessage, is_expired}

-- packages/schemas/marga_schemas/messaging.py
pub data QueueClass : Type 0 where
  critical_local regional_safety analytics : QueueClass

-- packages/schemas/marga_schemas/common.py
pub data ConnectivityState : Type 0 where
  full direct_only intermittent isolated : ConnectivityState

-- `connectivity in _FORWARD_ELIGIBILITY[queue_class]`
unfoldable pub forward_eligible : QueueClass → ConnectivityState → Bool
forward_eligible critical_local _ = true
forward_eligible regional_safety isolated = false
forward_eligible regional_safety _ = true
forward_eligible analytics full = true
forward_eligible analytics _ = false

-- `StoreForwardEntry`
pub record Entry : Type 0 where
  pub entry_id : ℕ
  pub message : V2XMessage
  pub queue_class : QueueClass
  pub enqueued_at : ℕ
  pub retry_count : ℕ

pub record Manager : Type 0 where
  pub entries : Dict ℕ Entry
  pub seen : Dict (ℕ × String) ℕ
  pub total_stored : ℕ
  pub total_forwarded : ℕ
  pub total_expired : ℕ

abbrev pub init : Manager
init = record { entries = []; seen = []; total_stored = 0; total_forwarded = 0; total_expired = 0 }

abbrev pub dedup_key : V2XMessage → ℕ × String
dedup_key m = (m.message_id, m.schema_version)

-- The entry that `_seen` and `_entries` lead to.
unfoldable pub existing_entry : ℕ × String → Manager → Option Entry
existing_entry k s = elim (Dict.get k s.seen) [ none ↦ none | some i ↦ Dict.get i s.entries ]

-- The entry with a newer version of its message.
abbrev pub renew : V2XMessage → QueueClass → Entry → Entry
renew m c e = record e { message = m; queue_class = c; retry_count = 0 }

abbrev pub new_entry : V2XMessage → QueueClass → ℕ → ℕ → Entry
new_entry m c now entry_id = record {
  entry_id = entry_id;
  message = m;
  queue_class = c;
  enqueued_at = now;
  retry_count = 0;
}

unfoldable pub store : V2XMessage → QueueClass → ℕ → ℕ → Manager → Entry × Manager
store m c now entry_id s = elim (existing_entry (dedup_key m) s) [
  | some e ↦
      if ltb e.message.timestamp m.timestamp
      then (renew m c e, record s { entries = Dict.put e.entry_id (renew m c e) s.entries })
      else (e, s)
  | none ↦ (
    new_entry m c now entry_id,
    record s {
      entries = Dict.put entry_id (new_entry m c now entry_id) s.entries;
      seen = Dict.put (dedup_key m) entry_id s.seen;
      total_stored = s.total_stored + 1;
    },
  )
]

-- The sort key of `flush`.
unfoldable pub class_rank : QueueClass → ℕ
class_rank critical_local = 0
class_rank regional_safety = 1
class_rank analytics = 2

unfoldable pub insert : Entry → List Entry → List Entry
insert x [] = x ∷ []
insert x (y ∷ ys) =
    if leb (class_rank x.queue_class) (class_rank y.queue_class)
    then x ∷ y ∷ ys
    else y ∷ insert x ys

-- `sorted`, which is stable.
unfoldable pub sort : List Entry → List Entry
unfolding insert
sort [] = []
sort (x ∷ xs) = insert x (sort xs)

-- The loop of `flush`: the eligible messages, the entries to remove, and how many of them are
-- forwarded and expired.
pub record Round : Type 0 where
  pub eligible : List V2XMessage
  pub to_remove : List ℕ
  pub forwarded : ℕ
  pub expired : ℕ

unfoldable pub flush_from : ℕ → ConnectivityState → List Entry → Round
flush_from now c [] = record { eligible = []; to_remove = []; forwarded = 0; expired = 0 }
flush_from now c (e ∷ es) =
    let rest = flush_from now c es in
    if is_expired now e.message
    then record rest { to_remove = e.entry_id ∷ rest.to_remove; expired = rest.expired + 1 }
    else if forward_eligible e.queue_class c
    then record rest {
      eligible = e.message ∷ rest.eligible;
      to_remove = e.entry_id ∷ rest.to_remove;
      forwarded = rest.forwarded + 1;
    }
    else rest

-- The body of the loop that removes entries.
unfoldable pub remove_entry : ℕ → Manager → Manager
remove_entry entry_id s = elim (Dict.get entry_id s.entries) [
  | none ↦ s
  | some e ↦ record s {
    entries = Dict.pop entry_id s.entries;
    seen = Dict.pop (dedup_key e.message) s.seen;
  }
]

unfoldable pub remove_all : List ℕ → Manager → Manager
remove_all [] s = s
remove_all (i ∷ is) s = remove_all is (remove_entry i s)

abbrev pub values : Dict ℕ Entry → List Entry
values = map (λ e. e.1)

unfoldable pub flush : ℕ → ConnectivityState → Manager → List V2XMessage × Manager
flush now c s =
    let r = flush_from now c (sort (values s.entries)) in
    (
      r.eligible,
      remove_all r.to_remove (record s {
        total_forwarded = s.total_forwarded + r.forwarded;
        total_expired = s.total_expired + r.expired;
      }),
    )

-- The first loop of `cleanup`.
unfoldable pub expired_ids : ℕ → List Entry → List ℕ
expired_ids now [] = []
expired_ids now (e ∷ es) =
    let rest = expired_ids now es in if is_expired now e.message then e.entry_id ∷ rest else rest

unfoldable pub cleanup : ℕ → Manager → ℕ × Manager
cleanup now s =
    let ids = expired_ids now (values s.entries) in
    let s' = remove_all ids s in
    (length ids, record s' { total_expired = s'.total_expired + length ids })

unfoldable pub pending : Manager → ℕ
pending s = length s.entries
