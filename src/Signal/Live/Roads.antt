-- ===== src/Signal/Live/Roads.antt =====
-- What services/signal-rl/marga_signal_rl/live_controller.py sees of a junction, and what it makes of it.
use marga.Prelude.{
  ℕ, ◌+◌, ◌%◌, ◌≡◌, refl, sym, ◌∙◌, inl, inr, String, none, some, arith, if◌then◌else◌, Bool-cases,
  Option-cases, nat_eq, string_eq, ◌==◌,
}
use marga.Prelude.Dict
use marga.Signal.State.{SignalAction, is_next_phase, action_extension_s, SignalObservation}
use marga.Signal.Live.{
  ok, SignalControlDecision, Controller, Graph, Policy, Command, Setting, phase_index, duration_s,
  SignalJunctionTopology, register_topology, repeats_movement,
}
use marga.Signal.Live.Decide.{
  require_topology, state, decide, make_room, record_decision, recommendation, observe,
}
use marga.Signal.Live.Execute.{adapter_command}
use marga.Signal.Live.Record.{order-cases}
use marga.Signal.Live.Apply.{Result-cases}

-- Each topology is registered under its own junction.
abbrev pub IsRegistered : Controller → Type 0
IsRegistered c =
    (j : String) (t : SignalJunctionTopology) → Dict.get j c.topologies ≡ some t → t.junction_id ≡ j

-- Registering a topology keeps each under its own junction.
pub register_topology-IsRegistered :
    (t : SignalJunctionTopology) (c : Controller)
    → IsRegistered c
    → IsRegistered (register_topology t c).0
unfolding register_topology
register_topology-IsRegistered t c v j u h = elim (Bool-cases (repeats_movement t.approaches)) [
  | inl twice ↦ v j u (ground (arith, twice, h))
  | inr once ↦
      let found : Dict.get j (Dict.put t.junction_id t c.topologies) ≡ some u =
        ground (arith, once, h) in
      elim (Bool-cases (t.junction_id == j)) [
        | inl mine ↦ ground (
          arith,
          found,
          mine,
          Dict.get-put t.junction_id j t c.topologies,
          string_eq.eqb_iff t.junction_id j,
        )
        | inr other ↦ v j u (sym (Dict.get-put_other t.junction_id j t c.topologies other) ∙ found)
      ]
]

-- The setting of a command, from the observation at hand.
abbrev pub setting_for : SignalJunctionTopology → SignalObservation → SignalAction → Setting
setting_for t obs a =
    if is_next_phase a
    then phase_index ((obs.phase_index + 1) % t.phase_count)
    else duration_s (obs.phase_remaining_s + action_extension_s a)

-- Two controllers that see the same roads.
pub record SameRoads (a b : Controller) : Type 0 where
  pub topologies : a.topologies ≡ b.topologies
  pub signal_states : a.signal_states ≡ b.signal_states
  pub phase_started_at : a.phase_started_at ≡ b.phase_started_at

pub same_state :
    {a b : Controller} (graph : Graph) (j : String)
    → SameRoads a b
    → state graph j a ≡ state graph j b
unfolding state require_topology observe
same_state graph j s = rw (s.topologies, s.signal_states, s.phase_started_at) refl

make_room-roads : (c : Controller) → SameRoads (make_room c) c
unfolding make_room
make_room-roads c = elim (order-cases c.decision_order) [
  | inl empty ↦ ground (arith, empty)
  | inr (i, rest, e) ↦ ground (arith, e)
]

pub record_decision-roads :
    (d : SignalControlDecision) (c : Controller) → SameRoads (record_decision d c) c
unfolding record_decision
record_decision-roads d c =
    let r = make_room-roads c in ground (arith, r.topologies, r.signal_states, r.phase_started_at)

pub record_decision-get :
    (d : SignalControlDecision) (c : Controller)
    → Dict.get d.decision_id (record_decision d c).decisions ≡ some d
unfolding record_decision
record_decision-get d c = ground (
  arith,
  Dict.get-put_self d.decision_id d c.decisions,
  Dict.get-put_self d.decision_id d (make_room c).decisions,
)

pub adapter_command_made :
    (graph : Graph) (t : SignalJunctionTopology) (d : SignalControlDecision) (c : Controller)
    {command : Command}
    → adapter_command graph t d c ≡ ok command
    → (obs : SignalObservation) × (state graph t.junction_id c ≡ ok obs)
      × (command ≡ record {
        signal_id = t.signal_id;
        action = d.effective_action;
        setting = setting_for t obs d.effective_action;
      })
unfolding adapter_command
adapter_command_made graph t d c h = elim (Result-cases (state graph t.junction_id c)) [
  | inl (e, lost) ↦ absurd (ground (arith, lost, h))
  | inr (obs, seen) ↦ (obs, seen, sym (ground (arith, seen, h)))
]

pub recommendation_made :
    (graph : Graph) (policy : Policy) (i : ℕ) (j : String) (c : Controller)
    {d : SignalControlDecision}
    → recommendation graph policy i j none c ≡ ok d
    → (t : SignalJunctionTopology) × (obs : SignalObservation) × (Dict.get j c.topologies ≡ some t)
      × (state graph j c ≡ ok obs)
      × (d ≡ decide t obs (policy obs) i j)
unfolding recommendation require_topology
recommendation_made graph policy i j c h = elim (Option-cases (Dict.get j c.topologies)) [
  | inl gone ↦ absurd (ground (arith, gone, h))
  | inr (t, there) ↦ elim (Result-cases (state graph j c)) [
    | inl (e, lost) ↦ absurd (ground (arith, there, lost, h))
    | inr (obs, seen) ↦ (t, obs, there, seen, sym (ground (arith, there, seen, h)))
  ]
]
