-- ===== src/Alerts/Tests.antt =====
-- Runs of the alert modules, and their theorems at concrete inputs.
use marga.Prelude.{
  ℕ, ◌*◌, ◌-◌, ◌≤◌, ◌≡◌, refl, String, true, some, none, List, [], ◌∷◌, arith, keep, nat_eq,
  string_eq,
}
use marga.Prelude.Dict
use marga.Alerts.Alert.{second, Alert, active, resolved, high}
use marga.Alerts.Lifecycle.{
  Manager, Updates, create_alert, update_alert, resolve_alert, expire_stale, expire_from, is_stale,
  expire, allows, permitted, apply, save, elem, is_subset, same_key, last_fire, set_fire, cooldown,
  is_suppressed, hysteresis_key,
}
use marga.Alerts.Lifecycle
use marga.Alerts.Lifecycle.Expiry.{Tidy}
use marga.Alerts.Lifecycle.Transitions.{Op, create, clear, sweep, run_op, run, Goes, run-Leads}
use marga.Alerts.Lifecycle.Hysteresis.{create-cooldown}
use marga.Alerts.Store
use marga.Alerts.Store.{
  Store, Filters, append, add, find_last, get, in_bbox, matches, query_from, source, query,
}
use marga.Alerts.Service.{Service, PatchRequest, post_alert, change, finish, patch_alert}
use marga.Alerts.Service.Agreement.{Agrees, handlers-Agrees}

program : Unit {0}
unfolding Dict.get Dict.put Dict.pop keep create_alert update_alert resolve_alert expire_stale
    expire_from is_stale expire allows permitted apply save elem is_subset same_key last_fire
    set_fire cooldown is_suppressed Lifecycle.init run_op run Store.init append add find_last get
    in_bbox matches query_from source query post_alert change finish patch_alert Tidy
program = tt

abbrev alert : ℕ → List String → Alert
alert n actors = record {
  alert_id = n;
  alert_type = "collision";
  priority = high;
  state = active;
  position = none;
  affected_actor_ids = actors;
  created_at = 0;
  updated_at = 0;
  expires_at = none;
  ttl_s = some 60;
  machine_reasoning = [];
}

abbrev manager : Manager
manager = Lifecycle.init (10 * second) []

abbrev one : Manager
one = (create_alert (alert 1 ("a" ∷ "b" ∷ [])) 0 manager).1

one-Tidy : Tidy one.alerts
unfolding program
one-Tidy = (refl, refl, tt)

abbrev late : ℕ
late = 60 * second

expires : (expire_stale late one).0 ≡ 1 ∷ []
unfolding program
expires = refl

-- The same actors in another order, within the cooldown and at its end.
suppresses : is_suppressed "collision" ("b" ∷ "a" ∷ "a" ∷ []) (9 * second) one ≡ true
unfolding program
suppresses = refl

abbrev operations : List Op
operations = clear 2 "none" 5 ∷ create (alert 3 []) 6 ∷ sweep 7 ∷ []

run-Leads_example : Goes active 1 (run operations one)
unfolding program
run-Leads_example =
    run-Leads operations 1 one (record (alert 1 ("a" ∷ "b" ∷ [])) { state = active }) one-Tidy refl
      (tt, (refl, (tt, tt)))

create-cooldown_example : cooldown "collision" manager ≤ 10 * second - 0
unfolding program
create-cooldown_example =
    create-cooldown (alert 1 ("a" ∷ "b" ∷ [])) (alert 4 ("b" ∷ "a" ∷ [])) operations manager 0
      (10 * second) refl (tt, (omega arith, (tt, tt))) refl refl

abbrev store : Store
store = Store.init 2

abbrev closed : ℕ → Alert
closed n = record (alert n []) { state = resolved }

abbrev all_closed : Filters
all_closed = record {
  bbox = none;
  actor_id = none;
  alert_type = none;
  state = some resolved;
  priority = none;
}

abbrev service : Service
service = record { lifecycle = manager; store = store }

service-Agrees : Agrees service
unfolding program
service-Agrees = record { tidy = tt; shared = λ k a e. absurd (ground arith) }

abbrev posted : Service
posted = (post_alert (alert 1 []) 0 service).1

posted-Agrees : Agrees posted
posted-Agrees = (handlers-Agrees service service-Agrees).0 (alert 1 []) 0

handlers-Agrees_example :
    ((a : Alert) (mono : ℕ) → Agrees (post_alert a mono posted).1)
    × ((k : ℕ) (req : PatchRequest) (now : ℕ) → Agrees (patch_alert k req now posted).1)
handlers-Agrees_example = handlers-Agrees posted posted-Agrees
