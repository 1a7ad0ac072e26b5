-- ===== src/Messaging/StoreForward/Tests.antt =====
-- Runs of the store-and-forward manager, and its theorems at concrete inputs.
use marga.Prelude.{ℕ, ◌≡◌, refl, some, [], ◌∷◌, map, keep, nat_eq, string_eq, pair_eq}
use marga.Prelude.Dict
use marga.Messaging.Message.{operational, V2XMessage, is_expired}
use marga.Messaging.StoreForward.{
  critical_local, analytics, full, isolated, Manager, init, forward_eligible, existing_entry, store,
  class_rank, insert, sort, flush_from, remove_entry, remove_all, values, flush, expired_ids,
  cleanup,
}
use marga.Messaging.StoreForward.Agreement.{IsForward, init-IsForward, store-IsForward}
use marga.Messaging.StoreForward.Contents.{held, newest, store-newest}
use marga.Messaging.StoreForward.Order.{Ordered}
use marga.Messaging.StoreForward.Flush.{delivers, leaves, settle, flush-delivers}

program : Unit {0}
unfolding is_expired forward_eligible existing_entry store class_rank insert sort flush_from
    remove_entry remove_all flush expired_ids cleanup held newest delivers leaves keep Dict.get
    Dict.put Dict.pop
program = tt

abbrev message : ℕ → ℕ → V2XMessage
message n t = record {
  message_id = n;
  schema_version = "0.1.0";
  priority = operational;
  sender_id = "a";
  timestamp = t;
  ttl_s = 60;
}

abbrev two : Manager
two = (store (message 2 0) critical_local 0 11 (store (message 1 0) analytics 0 10 init).1).1

first-IsForward : IsForward (store (message 1 0) analytics 0 10 init).1
unfolding program
first-IsForward = store-IsForward (message 1 0) analytics 0 10 init-IsForward refl

two-IsForward : IsForward two
unfolding program
two-IsForward = store-IsForward (message 2 0) critical_local 0 11 first-IsForward refl

flushes : (flush 1 full two).0 ≡ message 2 0 ∷ message 1 0 ∷ []
unfolding program
flushes = refl

isolated_flush : (flush 1 isolated two).0 ≡ message 2 0 ∷ []
unfolding program
isolated_flush = refl

flush-delivers_example :
    ((flush 1 isolated two).0
      ≡ map (λ e. e.message) (keep (delivers 1 isolated) (sort (values two.entries))))
    × Ordered (keep (delivers 1 isolated) (sort (values two.entries)))
    × ((j : ℕ)
        → Dict.get j (flush 1 isolated two).1.entries
          ≡ settle (leaves 1 isolated) (Dict.get j two.entries))
    × IsForward (flush 1 isolated two).1
flush-delivers_example = flush-delivers 1 isolated two two-IsForward

-- A newer version of the first message, with its class.
store-newest_example :
    held (1, "0.1.0") (store (message 1 5) critical_local 6 12 two).1
    ≡ some (newest (held (1, "0.1.0") two) (message 1 5) critical_local)
unfolding program
store-newest_example =
    store-newest (message 1 5) critical_local 6 12 two (1, "0.1.0") two-IsForward refl
