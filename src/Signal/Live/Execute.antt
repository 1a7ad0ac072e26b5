-- ===== src/Signal/Live/Execute.antt =====
-- How services/signal-rl/marga_signal_rl/live_controller.py sends a recorded decision.
use marga.Prelude.{
  ℕ, ◌+◌, ◌%◌, String, Bool, true, false, ◌||◌, Option, none, some, List, [], ◌∷◌, if◌then◌else◌,
  ◌==◌, string_eq, nat_eq,
}
use mathlib.Core.List.{reverse}
use marga.Prelude.Dict
use marga.Prelude.Dict.{Dict}
use marga.Signal.State.{SignalAction, hold, is_next_phase, action_extension_s}
use marga.Signal.Live.{
  no_topology, unknown_decision, Result, ok, raises, ◌>>=◌, is_some, SignalJunctionTopology, Graph,
  Policy, phase_index, duration_s, Command, Executor, run_executor, no_executor, raised, refused,
  Failure, SignalControlDecision, Controller,
}
use marga.Signal.Live.Decide.{state, recommend}

-- `_adapter_command`
unfoldable pub adapter_command :
    Graph → SignalJunctionTopology → SignalControlDecision → Controller → Result Command
unfolding state action_extension_s
adapter_command graph t d c = state graph t.junction_id c >>= λ obs. ok (record {
  signal_id = t.signal_id;
  action = d.effective_action;
  setting =
      if is_next_phase d.effective_action
      then phase_index ((obs.phase_index + 1) % t.phase_count)
      else duration_s (obs.phase_remaining_s + action_extension_s d.effective_action);
})

-- What a call leaves, the command that it sent, and what it returns.
abbrev pub Outcome : Type 0
Outcome = Controller × Option Command × Result SignalControlDecision

abbrev pub is_hold : SignalAction → Bool
is_hold hold = true
is_hold _ = false

-- Whether a decision has been applied or has failed.
abbrev pub is_settled : SignalControlDecision → Bool
is_settled d = d.applied || is_some d.application_error

unfoldable pub settle : ℕ → SignalControlDecision → Option Command → Controller → Outcome
unfolding Dict.put
settle i d sent c = (record c { decisions = Dict.put i d c.decisions }, sent, ok d)

abbrev pub succeed : SignalControlDecision → SignalControlDecision
succeed d = record d { applied = true }

abbrev pub fail : Failure → SignalControlDecision → SignalControlDecision
fail failure d = record d { application_error = some failure }

unfoldable pub send : ℕ → SignalControlDecision → Executor → Result Command → Controller → Outcome
unfolding settle
send i d executor (raises e) c = settle i (fail (raised e) d) none c
send i d executor (ok command) c = elim (run_executor executor command) [
  | none ↦ settle i (succeed d) (some command) c
  | some text ↦ settle i (fail (refused text) d) (some command) c
]

unfoldable pub execute : Graph → ℕ → SignalControlDecision → Option Executor → Controller → Outcome
unfolding settle send adapter_command Dict.get
execute graph i d none c = settle i (fail no_executor d) none c
execute graph i d (some executor) c = elim (Dict.get d.junction_id c.topologies) [
  | none ↦ (c, none, raises no_topology)
  | some t ↦ send i d executor (adapter_command graph t d c) c
]

unfoldable pub apply : Graph → ℕ → Controller → Outcome
unfolding settle execute Dict.get
apply graph i c = elim (Dict.get i c.decisions) [
  | none ↦ (c, none, raises unknown_decision)
  | some d ↦
      if is_settled d
      then (c, none, ok d)
      else if is_hold d.effective_action
      then settle i (succeed d) none c
      else execute graph i d c.executor c
]

abbrev pub applied_after : Graph → Controller × Result SignalControlDecision → Outcome
applied_after graph (c, raises e) = (c, none, raises e)
applied_after graph (c, ok d) = apply graph d.decision_id c

unfoldable pub decide_and_apply : Graph → Policy → ℕ → String → Controller → Outcome
unfolding recommend apply
decide_and_apply graph policy i j c = applied_after graph (recommend graph policy i j none c)

-- `latest_decision` goes back through the log; `raises` stands for the KeyError of a missing entry.
unfoldable pub last_of :
    String → List ℕ → Dict ℕ SignalControlDecision → Result (Option SignalControlDecision)
unfolding Dict.get
last_of j [] decisions = ok none
last_of j (i ∷ older) decisions =
    let rest = last_of j older decisions in
    elim (Dict.get i decisions) [
      | none ↦ raises unknown_decision
      | some d ↦ if d.junction_id == j then ok (some d) else rest
    ]

unfoldable pub latest_decision : String → Controller → Result (Option SignalControlDecision)
unfolding last_of
latest_decision j c = last_of j (reverse c.decision_order) c.decisions
