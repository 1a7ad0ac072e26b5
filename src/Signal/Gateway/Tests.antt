-- ===== src/Signal/Gateway/Tests.antt =====
-- Runs of the gateway's queue and handlers, and their theorems at concrete inputs.
use marga.Prelude.{
  ◌*◌, ◌≡◌, refl, false, List, some, none, [], ◌∷◌, ◌++◌, keep, nat_eq, string_eq, arith,
}
use marga.Prelude.Dict
use marga.Signal.State.{second, next_phase, extend_green_5}
use marga.Signal.Safety.{accepted}
use marga.Signal.Live.{
  SignalJunctionTopology, Graph, Policy, Command, phase_index, duration_s, queue,
  SignalControlDecision, Controller,
}
use marga.Signal.Live.Decide.{
  known_edges, sum_edges, approach_state, approach_states, observe, require_topology, state,
}
use marga.Signal.Live.Execute.{adapter_command, succeed}
use marga.Signal.Live.Apply.{Sends}
use marga.Signal.Gateway.{
  Gateway, Issued, last, queue_command, is_change, max_pending_commands, history_length,
  apply_handler, other_junction,
}
use marga.Signal.Gateway.Queue.{
  queue_all, queue_all-newest, Event, issues, polls, issued, serve, serve-delivers,
}
use marga.Signal.Gateway.Handlers.{apply_handler-other_junction}

abbrev roads : Graph
roads e = some (record { queue_length = 3; pedestrian_count = 0 })

abbrev leave : Policy
leave obs = next_phase

abbrev leaving : SignalControlDecision
leaving = record {
  decision_id = 7;
  junction_id = "J";
  signal_id = "S";
  requested_action = next_phase;
  effective_action = next_phase;
  safety_override = false;
  safety_reason = accepted;
  applied = false;
  application_error = none;
}

abbrev junction : SignalJunctionTopology
junction = record {
  junction_id = "J";
  signal_id = "S";
  approaches = record { movement_id = "north"; incoming_edge_ids = "e" ∷ [] } ∷ [];
  phase_index_by_name = ("A", 0) ∷ ("B", 1) ∷ [];
  phase_count = 2;
  default_phase_duration_s = 30 * second;
}

abbrev watching : Controller
watching = record {
  topologies = ("J", junction) ∷ [];
  signal_states =
      (
        "J",
        record {
          intersection_id = "J";
          ts = 115 * second;
          current_phase = "A";
          phase_remaining_s = none;
        },
      )
      ∷ [];
  phase_started_at = ("J", 100 * second) ∷ [];
  last_phase = ("J", "A") ∷ [];
  executor = some queue;
  decisions = (7, leaving) ∷ [];
  decision_order = 7 ∷ [];
  decision_limit = 2;
}

abbrev pressed : Command
pressed = record { signal_id = "S"; action = next_phase; setting = phase_index 1 }

abbrev longer : Command
longer = record { signal_id = "S"; action = extend_green_5; setting = duration_s (20 * second) }

abbrev idle : Gateway
idle = record { controller = watching; pending = (longer, 1) ∷ []; history = [] }

pressed-Sends : Sends roads 7 watching pressed
unfolding Dict.get adapter_command state require_topology observe approach_states approach_state
    known_edges sum_edges
pressed-Sends = record {
  decision = leaving;
  recorded = refl;
  unsettled = refl;
  active = refl;
  executor = queue;
  registered = refl;
  topology = junction;
  located = refl;
  made = refl;
}

apply_handler-other_junction_example :
    let r =
      apply_handler roads leave 8 5 "K" (record { decision_id = some 7; action = none }) idle in
    (r.1 ≡ other_junction)
    × (r.0.pending ≡ last max_pending_commands ((longer, 1) ∷ (pressed, 5) ∷ []))
    × (Dict.get 7 r.0.controller.decisions ≡ some (succeed pressed-Sends.decision))
unfolding pressed-Sends
apply_handler-other_junction_example =
    apply_handler-other_junction roads leave 8 5 7 "K" none idle pressed pressed-Sends refl refl

abbrev coming : List Issued
coming = (pressed, 2) ∷ (longer, 3) ∷ []

queue_all_run : (queue_all coming idle).pending ≡ (longer, 1) ∷ (pressed, 2) ∷ (longer, 3) ∷ []
unfolding queue_all queue_command last
queue_all_run = refl

queue_all-newest_example :
    ((queue_all coming idle).pending ≡ last max_pending_commands (idle.pending ++ coming))
    × ((queue_all coming idle).history ≡ last history_length ([] ++ keep is_change coming))
queue_all-newest_example =
    queue_all-newest coming idle (record { waiting = omega arith; shown = omega arith })

abbrev events : List Event
events = issues (pressed, 2) ∷ polls ∷ issues (longer, 3) ∷ []

serve_run : (serve events idle).1 ≡ (longer, 1) ∷ (pressed, 2) ∷ []
unfolding serve queue_command last
serve_run = refl

serve-delivers_example :
    (serve events idle).1 ++ (serve events idle).0.pending ≡ idle.pending ++ issued events
serve-delivers_example = serve-delivers events idle (omega arith)
