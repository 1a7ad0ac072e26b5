-- ===== src/Messaging/Message.antt =====
-- packages/schemas/marga_schemas/messaging.py: messages and their expiry. Identifiers (UUIDs) are
-- numbers and times microseconds. The fields that no modelled code reads are left out.
use marga.Prelude.{ℕ, ◌-◌, ◌*◌, String, Bool, false, true, ltb, ◌≡◌, ◌↔◌, arith}

pub data MessagePriority : Type 0 where
  critical_safety regional_safety operational analytics : MessagePriority

-- `_PRIORITY_ORDER` of services/messaging/marga_messaging/priority.py.
unfoldable pub priority_order : MessagePriority → ℕ
priority_order critical_safety = 0
priority_order regional_safety = 1
priority_order operational = 2
priority_order analytics = 3

abbrev pub same_priority : MessagePriority → MessagePriority → Bool
same_priority critical_safety critical_safety = true
same_priority regional_safety regional_safety = true
same_priority operational operational = true
same_priority analytics analytics = true
same_priority _ _ = false

pub same_priority_iff : (p q : MessagePriority) → (same_priority p q ≡ true) ↔ (p ≡ q)
same_priority_iff critical_safety q = ground arith
same_priority_iff p q = ground arith

pub record V2XMessage : Type 0 where
  pub message_id : ℕ
  pub schema_version : String
  pub priority : MessagePriority
  pub sender_id : String
  pub timestamp : ℕ
  pub ttl_s : ℕ

abbrev pub second : ℕ
second = 1_000_000

-- `(now - ts).total_seconds() > ttl_s`; before `ts` the difference is negative, and no age.
unfoldable pub is_expired : ℕ → V2XMessage → Bool
is_expired now m = ltb (m.ttl_s * second) (now - m.timestamp)
