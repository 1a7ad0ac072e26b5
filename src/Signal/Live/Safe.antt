-- ===== src/Signal/Live/Safe.antt =====
-- How services/signal-rl/marga_signal_rl/live_controller.py joins the safety envelope and the commands.
use mathlib.Core.Path.{subst}
use marga.Prelude.{
  ℕ, ◌+◌, ◌%◌, ◌≤◌, ◌<◌, ◌≡◌, ◌≢◌, refl, sym, ap, ◌∙◌, ◌⊎◌, inl, inr, String, false, none, some,
  arith, nat_eq, string_eq,
}
use marga.Prelude.Dict
use marga.Signal.State.{
  SignalAction, hold, extend_green_5, extend_green_10, next_phase, SignalObservation,
}
use marga.Signal.Safety.{validate, min_green_s}
use marga.Signal.Envelope.{leaving_bounds}
use marga.Signal.Live.{
  Result, ok, SignalControlDecision, Controller, Graph, Policy, Command, phase_index,
  SignalJunctionTopology, queue,
}
use marga.Signal.Live.Decide.{state, decide, record_decision, recommendation, recommend}
use marga.Signal.Live.Execute.{is_settled, adapter_command, apply, decide_and_apply}
use marga.Signal.Live.Apply.{Result-cases, Sends, apply-Sends}
use marga.Signal.Live.Roads.{
  IsRegistered, setting_for, SameRoads, same_state, record_decision-roads, record_decision-get,
  adapter_command_made, recommendation_made,
}

-- A command that the envelope has passed on the observation at hand.
pub record IsChecked (graph : Graph) (policy : Policy) (j : String) (c : Controller) (k : Command)
    : Type 0 where
  pub topology : SignalJunctionTopology
  pub located : Dict.get j c.topologies ≡ some topology
  pub observation : SignalObservation
  pub seen : state graph j c ≡ ok observation
  pub target : k.signal_id ≡ topology.signal_id
  pub action : k.action ≡ (validate observation (policy observation)).action
  pub setting : k.setting ≡ setting_for topology observation k.action
  pub lasted : (k.action ≢ next_phase) ⊎ (min_green_s ≤ observation.phase_elapsed_s)

leaves-cases : (a : SignalAction) → (a ≢ next_phase) ⊎ (a ≡ next_phase)
leaves-cases next_phase = inr refl
leaves-cases hold = inl (λ e. cc)
leaves-cases extend_green_5 = inl (λ e. cc)
leaves-cases extend_green_10 = inl (λ e. cc)

checked_action :
    (obs : SignalObservation) (proposed : SignalAction)
    → ((validate obs proposed).action ≢ next_phase) ⊎ (min_green_s ≤ obs.phase_elapsed_s)
checked_action obs proposed = elim (leaves-cases (validate obs proposed).action) [
  | inl stays ↦ inl stays
  | inr leaves ↦ inr (leaving_bounds obs proposed leaves).0
]

ok_injective : {A : Type 0} {a b : A} → Path (Result A) (ok a) (ok b) → a ≡ b
ok_injective e = cc

-- What is sent for a decision on an observation, while the roads are the same.
sent-IsChecked :
    (graph : Graph) (policy : Policy) (i : ℕ) (j : String) (c : Controller) (k : Command)
    (t : SignalJunctionTopology) (obs : SignalObservation)
    → IsRegistered c
    → Dict.get j c.topologies ≡ some t
    → state graph j c ≡ ok obs
    → (c' : Controller) → SameRoads c' c
    → (n : ℕ) (s : Sends graph n c' k) → s.decision ≡ decide t obs (policy obs) i j
    → IsChecked graph policy j c k
unfolding decide
sent-IsChecked graph policy i j c k t obs v there seen c' roads n s same =
    let junction : s.decision.junction_id ≡ j = ap (λ x. x.junction_id) same in
    let place : Dict.get j c.topologies ≡ some s.topology =
      ap (λ x. Dict.get x c.topologies) (sym junction)
      ∙ ap (λ x. Dict.get s.decision.junction_id x) (sym roads.topologies)
      ∙ s.located in
    let known : s.topology ≡ t = Dict.some_injective (sym place ∙ there) in
    let (obs', seen', shape) = adapter_command_made graph s.topology s.decision c' s.made in
    let id : s.topology.junction_id ≡ j = v j s.topology place in
    let seen_now : state graph j c ≡ ok obs' =
      ap (λ x. state graph x c) (sym id)
      ∙ sym (same_state graph s.topology.junction_id roads)
      ∙ seen' in
    let view : obs' ≡ obs = ok_injective (sym seen_now ∙ seen) in
    let act : k.action ≡ (validate obs (policy obs)).action =
      ap (λ x. x.action) shape ∙ ap (λ x. x.effective_action) same in
    record {
      topology = t;
      located = there;
      observation = obs;
      seen = seen;
      target = ap (λ x. x.signal_id) shape ∙ ap (λ x. x.signal_id) known;
      action = act;
      setting =
          ap (λ x. x.setting) shape
          ∙ (λ q. setting_for (known q) (view q) (sym (ap (λ x. x.action) shape) q));
      lasted =
          subst (λ a. (a ≢ next_phase) ⊎ (min_green_s ≤ obs.phase_elapsed_s)) (sym act)
            (checked_action obs (policy obs));
    }

-- A command that `decide_and_apply` sends is safe for the junction as it is observed at that moment: it
-- goes to the signal of the junction, its action is the verdict of the envelope on the proposal of the
-- policy, its setting follows from the observation, and if it leaves the phase ten seconds of it have
-- passed. The topologies are registered under their own junctions.
pub decide_and_apply-IsChecked :
    (graph : Graph) (policy : Policy) (i : ℕ) (j : String) (c : Controller) (k : Command)
    → IsRegistered c
    → (decide_and_apply graph policy i j c).1 ≡ some k
    → IsChecked graph policy j c k
unfolding decide_and_apply recommend decide
decide_and_apply-IsChecked graph policy i j c k v h =
    elim (Result-cases (recommendation graph policy i j none c)) [
      | inl (e, lost) ↦ absurd (ground (arith, lost, h))
      | inr (d, made) ↦
          let (t, obs, there, seen, same) = recommendation_made graph policy i j c made in
          let c' : Controller = record_decision d c in
          let sent : (apply graph d.decision_id c').1 ≡ some k = ground (arith, made, h) in
          let s = (apply-Sends graph d.decision_id c' k).0 sent in
          let own : s.decision ≡ d =
            Dict.some_injective (sym s.recorded ∙ record_decision-get d c) in
          sent-IsChecked graph policy i j c k t obs v there seen c' (record_decision-roads d c)
            d.decision_id s (own ∙ same)
    ]

unchecked_command :
    (graph : Graph) (c : Controller) (d : SignalControlDecision) (t : SignalJunctionTopology)
    (obs : SignalObservation)
    → d.effective_action ≡ next_phase
    → t.junction_id ≡ d.junction_id
    → state graph d.junction_id c ≡ ok obs
    → adapter_command graph t d c
      ≡ ok (record {
        signal_id = t.signal_id;
        action = next_phase;
        setting = phase_index ((obs.phase_index + 1) % t.phase_count);
      })
unfolding adapter_command
unchecked_command graph c d t obs leaves own seen =
    let here : state graph t.junction_id c ≡ ok obs = ap (λ x. state graph x c) own ∙ seen in
    rw (here, leaves) refl

-- `apply` does not ask the envelope again. A decision to leave the phase that is recorded and not
-- settled is sent to the gateway's queue whatever is observed by then, also where the envelope would now
-- hold, since the phase has lasted less than ten seconds. The topology is registered under its own
-- junction and has telemetry.
pub apply_unchecked :
    (graph : Graph) (i : ℕ) (c : Controller) (d : SignalControlDecision)
    (t : SignalJunctionTopology) (obs : SignalObservation)
    → IsRegistered c
    → Dict.get i c.decisions ≡ some d
    → is_settled d ≡ false
    → d.effective_action ≡ next_phase
    → c.executor ≡ some queue
    → Dict.get d.junction_id c.topologies ≡ some t
    → state graph d.junction_id c ≡ ok obs
    → obs.phase_elapsed_s < min_green_s
    → ((validate obs next_phase).action ≡ hold)
      × ((apply graph i c).1
          ≡ some (record {
            signal_id = t.signal_id;
            action = next_phase;
            setting = phase_index ((obs.phase_index + 1) % t.phase_count);
          }))
unfolding validate
apply_unchecked graph i c d t obs v there open_ leaves ex place seen early = (
  ground arith,
  (apply-Sends graph i c _).1 (record {
    decision = d;
    recorded = there;
    unsettled = open_;
    active = rw leaves refl;
    executor = queue;
    registered = ex;
    topology = t;
    located = place;
    made = unchecked_command graph c d t obs leaves (v d.junction_id t place) seen;
  }),
)
