-- ===== src/Signal/Gateway/Handlers.antt =====
-- What the handlers of services/gateway/signal_control.py answer, and what they queue.
use marga.Prelude.{
  ℕ, ◌≡◌, refl, sym, ap, ◌∙◌, ◌⊎◌, inl, inr, String, Bool, true, false, Option, none, some, [], ◌∷◌,
  ◌++◌, arith, Bool-cases, Option-cases, ◌==◌, string_eq, nat_eq,
}
use marga.Prelude.Dict
use marga.Signal.Live.{
  Result, ok, raises, Graph, Policy, Command, queue, adapter, SignalControlDecision, Controller,
}
use marga.Signal.Live.Decide.{recommend}
use marga.Signal.Live.Execute.{
  Outcome, is_settled, settle, succeed, send, execute, apply, applied_after, decide_and_apply,
}
use marga.Signal.Live.Apply.{Sends, apply-Settles}
use marga.Signal.Live.Roads.{IsRegistered}
use marga.Signal.Live.Safe.{IsChecked, decide_and_apply-IsChecked}
use marga.Signal.Gateway.{
  Gateway, Answer, success, other_junction, ApplyRequest, answer_for, answered, named_action,
  recommended, last, max_pending_commands, queue_command, absorb, parse_action, apply_action,
  apply_handler, recommend_handler,
}
use marga.Signal.Gateway.Queue.{queue_command-pending, queue_command-controller}

answer_for-success :
    (j : String) (r : Result SignalControlDecision) {d : SignalControlDecision}
    → answer_for j r ≡ success d
    → (r ≡ ok d) × (d.junction_id ≡ j)
answer_for-success j (raises e) h = absurd (ground (arith, h))
answer_for-success j (ok e) {d} h = elim (Bool-cases (e.junction_id == j)) [
  | inl own ↦
      let same : e ≡ d = ground (arith, own, h) in
      (ap ok same, ap (λ x. x.junction_id) (sym same) ∙ (string_eq.eqb_iff e.junction_id j).0 own)
  | inr other ↦ absurd (ground (arith, other, h))
]

answered-result :
    (f : Result SignalControlDecision → Answer) (now : ℕ) (o : Outcome) (g : Gateway)
    → (answered f (absorb now o g)).1 ≡ f o.2
unfolding absorb
answered-result f now (c, sent, r) g = refl

applied_after-settled :
    (graph : Graph) (r : Controller × Result SignalControlDecision) {d : SignalControlDecision}
    → (applied_after graph r).2 ≡ ok d
    → is_settled d ≡ true
applied_after-settled graph (c, raises e) h = absurd (ground (arith, h))
applied_after-settled graph (c, ok e) {d} h = (apply-Settles graph e.decision_id c d h).1

apply_action-success :
    (graph : Graph) (policy : Policy) (i now : ℕ) (j : String) (o : Option String) (g : Gateway)
    {d : SignalControlDecision}
    → (apply_action graph policy i now j o g).1 ≡ success d
    → (d.junction_id ≡ j) × (is_settled d ≡ true)
unfolding apply_action decide_and_apply
apply_action-success graph policy i now j none g h =
    let made : Outcome = decide_and_apply graph policy i j g.controller in
    let (result, own) =
      answer_for-success j made.2 (sym (answered-result (answer_for j) now made g) ∙ h) in
    (own, applied_after-settled graph (recommend graph policy i j none g.controller) result)
apply_action-success graph policy i now j (some text) g {d} h =
    elim (Option-cases (parse_action text)) [
      | inl unknown ↦ absurd (ground (arith, unknown, h))
      | inr (a, known) ↦
          let r = recommend graph policy i j (some a) g.controller in
          let step : (answered (answer_for j) (absorb now (applied_after graph r) g)).1
              ≡ success d =
            ground (arith, known, h) in
          let (result, own) =
            answer_for-success j (applied_after graph r).2
              (sym (answered-result (answer_for j) now (applied_after graph r) g) ∙ step) in
          (own, applied_after-settled graph r result)
    ]

-- An apply request that succeeds answers with a decision for the junction that was asked for, applied or
-- with the error that it met.
pub apply_handler-success :
    (graph : Graph) (policy : Policy) (i now : ℕ) (j : String) (request : ApplyRequest)
    (g : Gateway) {d : SignalControlDecision}
    → (apply_handler graph policy i now j request g).1 ≡ success d
    → (d.junction_id ≡ j) × (is_settled d ≡ true)
unfolding apply_handler
apply_handler-success graph policy i now j request g {d} h =
    elim (Option-cases request.decision_id) [
      | inl absent ↦
          apply_action-success graph policy i now j (named_action request.action) g {d = d}
            (ground (arith, absent, h))
      | inr (n, given) ↦
          let made : Outcome = apply graph n g.controller in
          let step : (answered (answer_for j) (absorb now made g)).1 ≡ success d =
            ground (arith, given, h) in
          let (result, own) =
            answer_for-success j made.2 (sym (answered-result (answer_for j) now made g) ∙ step) in
          (own, (apply-Settles graph n g.controller d result).1)
    ]

Sends-queue :
    (graph : Graph) (n : ℕ) (c : Controller) (k : Command) (s : Sends graph n c k)
    → s.executor ≡ queue
    → apply graph n c ≡ settle n (succeed s.decision) (some k) c
unfolding apply execute send
Sends-queue graph n c k s q =
    let registered : c.executor ≡ some queue = s.registered ∙ ap some q in
    ground (arith, s.recorded, s.unsettled, s.active, registered, s.located, s.made)

-- The junction is compared after the call. A request to apply a recorded decision of another junction, where
-- it is one that sends a command to the queue, is answered with a conflict, and the command is queued and
-- the decision applied all the same.
pub apply_handler-other_junction :
    (graph : Graph) (policy : Policy) (i now n : ℕ) (j : String) (action : Option String)
    (g : Gateway) (k : Command) (s : Sends graph n g.controller k)
    → s.executor ≡ queue
    → (s.decision.junction_id == j) ≡ false
    → let r =
        apply_handler graph policy i now j (record { decision_id = some n; action = action }) g in
      (r.1 ≡ other_junction)
      × (r.0.pending ≡ last max_pending_commands (g.pending ++ (k, now) ∷ []))
      × (Dict.get n r.0.controller.decisions ≡ some (succeed s.decision))
unfolding apply_handler absorb settle
apply_handler-other_junction graph policy i now n j action g k s q foreign =
    let c = (settle n (succeed s.decision) (some k) g.controller).0 in
    let g' : Gateway = queue_command (k, now) (record g { controller = c }) in
    let registered : g.controller.executor ≡ some queue = s.registered ∙ ap some q in
    let whole : apply_handler graph policy i now j
          (record { decision_id = some n; action = action }) g
        ≡ (g', other_junction) =
      ap (λ o. answered (answer_for j) (absorb now o g)) (Sends-queue graph n g.controller k s q)
      ∙ ground (arith, registered, foreign) in
    (
      ap (λ r. r.1) whole,
      ap (λ r. r.0.pending) whole ∙ queue_command-pending (k, now) (record g { controller = c }),
      ap (λ r. Dict.get n r.0.controller.decisions) whole
          ∙ ap (λ x. Dict.get n x.decisions)
              (queue_command-controller (k, now) (record g { controller = c }))
          ∙ Dict.get-put_self n (succeed s.decision) g.controller.decisions,
    )

absorb-pending :
    (now : ℕ) (o : Outcome) (g : Gateway)
    → ((absorb now o g).0.pending ≡ g.pending)
      ⊎ ((k : Command) × (o.1 ≡ some k)
          × ((absorb now o g).0.pending ≡ last max_pending_commands (g.pending ++ (k, now) ∷ [])))
unfolding absorb
absorb-pending now (c, none, r) g = elim (Option-cases g.controller.executor) [
  | inl nobody ↦ inl (ground (arith, nobody))
  | inr (queue, x) ↦ inl (ground (arith, x))
  | inr (adapter call, x) ↦ inl (ground (arith, x))
]
absorb-pending now (c, some k, r) g = elim (Option-cases g.controller.executor) [
  | inl nobody ↦ inl (ground (arith, nobody))
  | inr (queue, x) ↦
      inr (k, refl, ground (arith, x, queue_command-pending (k, now) (record g { controller = c })))
  | inr (adapter call, x) ↦ inl (ground (arith, x))
]

-- Whatever the flag of its request, `recommend` queues nothing, or one command that the envelope has
-- passed on the junction as it is observed at that moment. The topologies are registered under their own
-- junctions.
pub recommend_handler-IsChecked :
    (graph : Graph) (policy : Policy) (i now : ℕ) (j : String) (apply_it : Bool) (g : Gateway)
    → IsRegistered g.controller
    → let after = (recommend_handler graph policy i now j apply_it g).0.pending in
      (after ≡ g.pending)
      ⊎ ((k : Command) × IsChecked graph policy j g.controller k
          × (after ≡ last max_pending_commands (g.pending ++ (k, now) ∷ [])))
unfolding recommend_handler decide_and_apply
recommend_handler-IsChecked graph policy i now j false g v =
    elim (absorb-pending now
      (recommended graph false (recommend graph policy i j none g.controller)) g) [
        | inl same ↦ inl same
        | inr (k, sent, queued) ↦ absurd (ground (arith, sent))
      ]
recommend_handler-IsChecked graph policy i now j true g v =
    elim (absorb-pending now (decide_and_apply graph policy i j g.controller) g) [
      | inl same ↦ inl same
      | inr (k, sent, queued) ↦
          inr (k, decide_and_apply-IsChecked graph policy i j g.controller k v sent, queued)
    ]
