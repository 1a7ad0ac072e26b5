-- ===== src/Signal/Live/Decide.antt =====
-- The observation of a junction and the recommendation of services/signal-rl/marga_signal_rl/
-- live_controller.py.
use marga.Prelude.{
  ℕ, ◌+◌, ◌-◌, String, Bool, true, false, Option, none, some, List, [], ◌∷◌, ◌++◌, if◌then◌else◌,
  nat_eqb, length, string_eq, nat_eq,
}
use marga.Prelude.Dict
use marga.Prelude.Dict.{Dict}
use marga.Signal.State.{SignalAction, ApproachState, SignalObservation}
use marga.Signal.Safety.{validate}
use marga.Signal.Live.{
  no_topology, no_telemetry, no_evidence, Result, ok, raises, ◌>>=◌, or_raise, or_else,
  SignalApproachTopology, SignalJunctionTopology, TrafficSignalState, EdgeState, Graph, Policy,
  SignalControlDecision, Controller,
}

unfoldable pub known_edges : Graph → List String → List EdgeState
known_edges graph [] = []
known_edges graph (i ∷ ids) =
    let rest = known_edges graph ids in elim (graph i) [ none ↦ rest | some e ↦ e ∷ rest ]

unfoldable pub sum_edges : (EdgeState → ℕ) → List EdgeState → ℕ
sum_edges f [] = 0
sum_edges f (e ∷ es) = f e + sum_edges f es

unfoldable pub approach_state : SignalApproachTopology → List EdgeState → Result ApproachState
unfolding sum_edges
approach_state a [] = raises no_evidence
approach_state a (e ∷ es) = ok (record {
  movement_id = a.movement_id;
  queue_length = sum_edges (λ x. x.queue_length) (e ∷ es);
  pedestrian_demand = sum_edges (λ x. x.pedestrian_count) (e ∷ es);
})

unfoldable pub approach_states : Graph → List SignalApproachTopology → Result (List ApproachState)
unfolding known_edges approach_state
approach_states graph [] = ok []
approach_states graph (a ∷ rest) = approach_state a (known_edges graph a.incoming_edge_ids) >>= λ s.
    approach_states graph rest >>= λ more. ok (s ∷ more)

-- `_observation`
unfoldable pub observe :
    Graph → SignalJunctionTopology → TrafficSignalState → Controller → Result SignalObservation
unfolding approach_states Dict.get
observe graph t s c = approach_states graph t.approaches >>= λ approaches.
    let elapsed : ℕ = s.ts - or_else (Dict.get t.junction_id c.phase_started_at) s.ts in
    ok (record {
      phase_index = or_else (Dict.get s.current_phase t.phase_index_by_name) 0;
      phase_elapsed_s = elapsed;
      phase_remaining_s = or_else s.phase_remaining_s (t.default_phase_duration_s - elapsed);
      approaches = approaches;
    })

unfoldable pub require_topology : String → Controller → Result SignalJunctionTopology
unfolding Dict.get
require_topology j c = or_raise (Dict.get j c.topologies) no_topology

unfoldable pub state : Graph → String → Controller → Result SignalObservation
unfolding require_topology observe
state graph j c = require_topology j c >>= λ t.
    or_raise (Dict.get j c.signal_states) no_telemetry >>= λ s. observe graph t s c

unfoldable pub is_known : ℕ → Controller → Bool
unfolding Dict.get
is_known i c = elim (Dict.get i c.decisions) [ none ↦ false | some d ↦ true ]

-- Where the log is full the oldest decision goes: `popleft`, and its entry with it.
unfoldable pub make_room : Controller → Controller
unfolding Dict.pop
make_room c =
    if nat_eqb (length c.decision_order) c.decision_limit
    then (elim c.decision_order [
      | [] ↦ c
      | oldest ∷ rest ↦ record c { decision_order = rest; decisions = Dict.pop oldest c.decisions }
    ])
    else c

-- `_record`, for a positive limit of decisions: with none the source raises.
unfoldable pub record_decision : SignalControlDecision → Controller → Controller
unfolding is_known make_room Dict.put
record_decision d c =
    if is_known d.decision_id c
    then record c { decisions = Dict.put d.decision_id d c.decisions }
    else (let c' = make_room c in
        record c' {
          decision_order = c'.decision_order ++ d.decision_id ∷ [];
          decisions = Dict.put d.decision_id d c'.decisions;
        })

-- The decision on an observation, from the request of the caller or else the proposal of the policy.
unfoldable pub decide :
    SignalJunctionTopology → SignalObservation → SignalAction → ℕ → String → SignalControlDecision
unfolding validate
decide t obs requested i j =
    let verdict = validate obs requested in
    record {
      decision_id = i;
      junction_id = j;
      signal_id = t.signal_id;
      requested_action = requested;
      effective_action = verdict.action;
      safety_override = verdict.safety_override;
      safety_reason = verdict.reason;
      applied = false;
      application_error = none;
    }

abbrev pub recorded :
    Result SignalControlDecision → Controller → Controller × Result SignalControlDecision
recorded (ok d) c = (record_decision d c, ok d)
recorded (raises e) c = (c, raises e)

-- The decision that `recommend` records.
unfoldable pub recommendation :
    Graph → Policy → ℕ → String → Option SignalAction → Controller → Result SignalControlDecision
unfolding require_topology state decide
recommendation graph policy i j requested c = require_topology j c >>= λ t.
    state graph j c >>= λ obs. ok (decide t obs (or_else requested (policy obs)) i j)

unfoldable pub recommend :
    Graph
    → Policy
    → ℕ
    → String
    → Option SignalAction
    → Controller
    → Controller × Result SignalControlDecision
unfolding recommendation record_decision
recommend graph policy i j requested c = recorded (recommendation graph policy i j requested c) c
