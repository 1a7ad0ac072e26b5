-- ===== src/Signal/Live/Tests.antt =====
-- Runs of the live controller, and its theorems at concrete inputs.
use marga.Prelude.{
  ◌*◌, ◌≤◌, ◌≡◌, refl, ◌↔◌, false, List, some, none, [], ◌∷◌, arith, nat_eq, string_eq,
}
use marga.Prelude.Dict
use marga.Signal.State.{second, hold, next_phase, SignalObservation, total_ped_demand}
use marga.Signal.Safety.{validate, accepted}
use marga.Signal.Live.{
  ok, SignalJunctionTopology, TrafficSignalState, Graph, Policy, Command, phase_index, queue,
  SignalControlDecision, Controller, observe_signal,
}
use marga.Signal.Live.Decide.{
  known_edges, sum_edges, approach_state, approach_states, observe, require_topology, state,
  is_known, make_room, record_decision, decide, recommendation, recommend,
}
use marga.Signal.Live.Execute.{adapter_command, settle, send, execute, apply, decide_and_apply}
use marga.Signal.Live.Apply.{Sends, apply-Sends}
use marga.Signal.Live.Roads.{IsRegistered}
use marga.Signal.Live.Safe.{IsChecked, decide_and_apply-IsChecked, apply_unchecked}
use marga.Signal.Live.Once.{
  Call, applies, decides_and_applies, recommends, sends, sends-le, drawn, call,
}

abbrev junction : SignalJunctionTopology
junction = record {
  junction_id = "J";
  signal_id = "S";
  approaches = record { movement_id = "north"; incoming_edge_ids = "e" ∷ [] } ∷ [];
  phase_index_by_name = ("A", 0) ∷ ("B", 1) ∷ [];
  phase_count = 2;
  default_phase_duration_s = 30 * second;
}

abbrev roads : Graph
roads e = some (record { queue_length = 3; pedestrian_count = 0 })

abbrev leave : Policy
leave obs = next_phase

-- Phase A since 100 s, now at 115 s.
abbrev watching : Controller
watching = record {
  topologies = ("J", junction) ∷ [];
  signal_states =
      (
        "J",
        record {
          intersection_id = "J";
          ts = 115 * second;
          current_phase = "A";
          phase_remaining_s = none;
        },
      )
      ∷ [];
  phase_started_at = ("J", 100 * second) ∷ [];
  last_phase = ("J", "A") ∷ [];
  executor = some queue;
  decisions = [];
  decision_order = [];
  decision_limit = 2;
}

abbrev changed : TrafficSignalState
changed = record {
  intersection_id = "J";
  ts = 120 * second;
  current_phase = "B";
  phase_remaining_s = none;
}

abbrev leaving : SignalControlDecision
leaving = record {
  decision_id = 7;
  junction_id = "J";
  signal_id = "S";
  requested_action = next_phase;
  effective_action = next_phase;
  safety_override = false;
  safety_reason = accepted;
  applied = false;
  application_error = none;
}

abbrev pressed : Command
pressed = record { signal_id = "S"; action = next_phase; setting = phase_index 1 }

-- The decision is recorded, and by then the phase has changed to B.
abbrev stale : Controller
stale = record watching {
  signal_states = ("J", changed) ∷ [];
  phase_started_at = ("J", 120 * second) ∷ [];
  last_phase = ("J", "B") ∷ [];
  decisions = (7, leaving) ∷ [];
  decision_order = 7 ∷ [];
}

stale_run : observe_signal changed (recommend roads leave 7 "J" none watching).0 ≡ stale
unfolding observe_signal recommend recommendation record_decision make_room is_known
    require_topology state observe approach_states approach_state known_edges sum_edges decide
    validate total_ped_demand apply execute send settle adapter_command decide_and_apply
stale_run = refl

sent_run : (decide_and_apply roads leave 7 "J" watching).1 ≡ some pressed
unfolding observe_signal recommend recommendation record_decision make_room is_known
    require_topology state observe approach_states approach_state known_edges sum_edges decide
    validate total_ped_demand apply execute send settle adapter_command decide_and_apply
sent_run = refl

watching-IsRegistered : IsRegistered watching
unfolding Dict.get
watching-IsRegistered j t h = ground (arith, string_eq.eqb_iff "J" j, h)

stale-IsRegistered : IsRegistered stale
unfolding Dict.get
stale-IsRegistered j t h = ground (arith, string_eq.eqb_iff "J" j, h)

decide_and_apply-IsChecked_example : IsChecked roads leave "J" watching pressed
decide_and_apply-IsChecked_example =
    decide_and_apply-IsChecked roads leave 7 "J" watching pressed watching-IsRegistered sent_run

abbrev seen_now : SignalObservation
seen_now = record {
  phase_index = 1;
  phase_elapsed_s = 0;
  phase_remaining_s = 30 * second;
  approaches = record { movement_id = "north"; queue_length = 3; pedestrian_demand = 0 } ∷ [];
}

seen_now_run : state roads "J" stale ≡ ok seen_now
unfolding require_topology state observe approach_states approach_state known_edges sum_edges
seen_now_run = refl

apply_unchecked_example :
    ((validate seen_now next_phase).action ≡ hold)
    × ((apply roads 7 stale).1
        ≡ some (record { signal_id = "S"; action = next_phase; setting = phase_index 0 }))
unfolding Dict.get
apply_unchecked_example =
    apply_unchecked roads 7 stale leaving junction seen_now stale-IsRegistered refl refl refl refl
      refl seen_now_run (omega arith)

apply-Sends_example :
    ((apply roads 7 stale).1
      ≡ some (record { signal_id = "S"; action = next_phase; setting = phase_index 0 }))
    ↔ Sends roads 7 stale (record { signal_id = "S"; action = next_phase; setting = phase_index 0 })
apply-Sends_example = apply-Sends roads 7 stale _

-- A recommendation, two attempts to apply it, and a tick of the controller.
abbrev calls : List Call
calls =
    recommends roads leave 8 "J" none
    ∷ applies roads 8
    ∷ applies roads 8
    ∷ decides_and_applies roads leave 9 "J"
    ∷ []

sends_run : sends 8 calls watching ≡ 1
unfolding sends call observe_signal recommend recommendation record_decision make_room is_known
    require_topology state observe approach_states approach_state known_edges sum_edges decide
    validate total_ped_demand apply execute send settle adapter_command decide_and_apply
sends_run = refl

sends-le_example : sends 8 calls watching ≤ 1
unfolding drawn Dict.get
sends-le_example = sends-le 8 calls watching (omega arith) (λ d h. absurd (ground (arith, h)))
