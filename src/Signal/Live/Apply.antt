-- ===== src/Signal/Live/Apply.antt =====
-- What `apply` of services/signal-rl/marga_signal_rl/live_controller.py does with a decision.
use marga.Prelude.{
  ℕ, ◌≡◌, refl, sym, ap, ◌∙◌, ◌↔◌, ◌⊎◌, inl, inr, true, false, Option, none, some, arith,
  Bool-cases, Option-cases, nat_eqb, nat_eq, string_eq,
}
use marga.Prelude.Dict
use marga.Signal.Live.{
  Result, ok, raises, Error, unknown_decision, no_topology, SignalControlDecision, Controller,
  Graph, Command, Executor, run_executor, SignalJunctionTopology, Failure, no_executor, raised,
  refused,
}
use marga.Signal.Live.Execute.{
  Outcome, adapter_command, is_hold, is_settled, settle, succeed, fail, send, execute, apply,
}

-- What `apply` sends: the command for a recorded decision that is not settled and not to hold, where
-- an executor is registered and the command can be made.
pub record Sends (graph : Graph) (i : ℕ) (c : Controller) (command : Command) : Type 0 where
  pub decision : SignalControlDecision
  pub recorded : Dict.get i c.decisions ≡ some decision
  pub unsettled : is_settled decision ≡ false
  pub active : is_hold decision.effective_action ≡ false
  pub executor : Executor
  pub registered : c.executor ≡ some executor
  pub topology : SignalJunctionTopology
  pub located : Dict.get decision.junction_id c.topologies ≡ some topology
  pub made : adapter_command graph topology decision c ≡ ok command

pub Result-cases :
    {A : Type 0} (r : Result A) → ((e : Error) × (r ≡ raises e)) ⊎ ((a : A) × (r ≡ ok a))
Result-cases (ok a) = inr (a, refl)
Result-cases (raises e) = inl (e, refl)

send-sends :
    (i : ℕ) (d : SignalControlDecision) (ex : Executor) (r : Result Command) (c : Controller)
    {command : Command}
    → (send i d ex r c).1 ≡ some command
    → r ≡ ok command
unfolding send settle
send-sends i d ex (raises e) c h = absurd (ground (arith, h))
send-sends i d ex (ok made) c h = elim (Option-cases (run_executor ex made)) [
  | inl taken ↦ ground (arith, taken, h)
  | inr (text, no_good) ↦ ground (arith, no_good, h)
]

execute-sends :
    (graph : Graph) (i : ℕ) (d : SignalControlDecision) (o : Option Executor) (c : Controller)
    {command : Command}
    → (execute graph i d o c).1 ≡ some command
    → (ex : Executor) × (o ≡ some ex)
      × (t : SignalJunctionTopology) × (Dict.get d.junction_id c.topologies ≡ some t)
      × (adapter_command graph t d c ≡ ok command)
unfolding execute settle
execute-sends graph i d none c h = absurd (ground (arith, h))
execute-sends graph i d (some ex) c h = elim (Option-cases (Dict.get d.junction_id c.topologies)) [
  | inl gone ↦ absurd (ground (arith, gone, h))
  | inr (t, there) ↦ (
    ex,
    refl,
    t,
    there,
    send-sends i d ex (adapter_command graph t d c) c (ground (arith, there, h)),
  )
]

apply_sent :
    (graph : Graph) (i : ℕ) (c : Controller) (command : Command)
    → (apply graph i c).1 ≡ some command
    → Sends graph i c command
unfolding apply settle
apply_sent graph i c command h = elim (Option-cases (Dict.get i c.decisions)) [
  | inl gone ↦ absurd (ground (arith, gone, h))
  | inr (d, there) ↦ elim (Bool-cases (is_settled d)) [
    | inl settled ↦ absurd (ground (arith, there, settled, h))
    | inr open_ ↦ elim (Bool-cases (is_hold d.effective_action)) [
      | inl stays ↦ absurd (ground (arith, there, open_, stays, h))
      | inr acts ↦
          let (ex, registered, t, located, made) =
            execute-sends graph i d c.executor c (ground (arith, there, open_, acts, h)) in
          record {
            decision = d;
            recorded = there;
            unsettled = open_;
            active = acts;
            executor = ex;
            registered = registered;
            topology = t;
            located = located;
            made = made;
          }
    ]
  ]
]

Sends-apply :
    (graph : Graph) (i : ℕ) (c : Controller) (command : Command)
    → Sends graph i c command
    → (apply graph i c).1 ≡ some command
unfolding apply execute send settle
Sends-apply graph i c command s = elim (Option-cases (run_executor s.executor command)) [
  | inl taken ↦
      ground (arith, s.recorded, s.unsettled, s.active, s.registered, s.located, s.made, taken)
  | inr (text, no_good) ↦
      ground (arith, s.recorded, s.unsettled, s.active, s.registered, s.located, s.made, no_good)
]

-- `apply` sends a command exactly when the decision is recorded, neither settled nor to hold, an
-- executor is registered, the topology of its junction is known and the command can be made; and then
-- it sends that command.
pub apply-Sends :
    (graph : Graph) (i : ℕ) (c : Controller) (command : Command)
    → ((apply graph i c).1 ≡ some command) ↔ Sends graph i c command
apply-Sends graph i c command = (apply_sent graph i c command, Sends-apply graph i c command)

-- The decision that a call returns is settled, and recorded.
abbrev Settles : ℕ → Outcome → Type 0
Settles i o =
    (e : SignalControlDecision)
    → o.2 ≡ ok e
    → (Dict.get i o.0.decisions ≡ some e) × (is_settled e ≡ true)

settle-Settles :
    (i : ℕ) (d : SignalControlDecision) (sent : Option Command) (c : Controller)
    → is_settled d ≡ true
    → Settles i (settle i d sent c)
unfolding settle
settle-Settles i d sent c s e h =
    let same : d ≡ e = ground (arith, h) in
    (Dict.get-put_self i d c.decisions ∙ ap some same, ap is_settled (sym same) ∙ s)

failed : (f : Failure) (d : SignalControlDecision) → is_settled (fail f d) ≡ true
failed f d = ground arith

-- What holds of an error that changes nothing, of a settled decision returned, and of a decision that
-- is settled now, holds of every outcome of `apply`.
module _ (P : Outcome → Type 0) (i : ℕ) (c : Controller)
    (refuses : (e : Error) → P (c, none, raises e))
    (returns : (d : SignalControlDecision)
      → Dict.get i c.decisions ≡ some d
      → is_settled d ≡ true
      → P (c, none, ok d))
    (settles : (d : SignalControlDecision) (sent : Option Command)
      → is_settled d ≡ true
      → P (settle i d sent c)) where
  send_cases :
      (d : SignalControlDecision) (ex : Executor) (r : Result Command) → P (send i d ex r c)
  unfolding send
  send_cases d ex (raises e) = settles (fail (raised e) d) none (failed (raised e) d)
  send_cases d ex (ok made) = elim (Option-cases (run_executor ex made)) [
    | inl taken ↦ rw (taken, send) (settles (succeed d) (some made) refl)
    | inr (text, no_good) ↦
        rw (no_good, send) (settles (fail (refused text) d) (some made) (failed (refused text) d))
  ]

  execute_cases :
      (graph : Graph) (d : SignalControlDecision) (o : Option Executor) → P (execute graph i d o c)
  unfolding execute
  execute_cases graph d none = settles (fail no_executor d) none (failed no_executor d)
  execute_cases graph d (some ex) = elim (Option-cases (Dict.get d.junction_id c.topologies)) [
    | inl gone ↦ rw (gone, execute) (refuses no_topology)
    | inr (t, there) ↦ rw (there, execute) (send_cases d ex (adapter_command graph t d c))
  ]

  pub apply_cases : (graph : Graph) → P (apply graph i c)
  unfolding apply
  apply_cases graph = elim (Option-cases (Dict.get i c.decisions)) [
    | inl gone ↦ rw (gone, apply) (refuses unknown_decision)
    | inr (d, there) ↦ elim (Bool-cases (is_settled d)) [
      | inl settled ↦ rw (there, settled, apply) (returns d there settled)
      | inr open_ ↦ elim (Bool-cases (is_hold d.effective_action)) [
        | inl stays ↦ rw (there, open_, stays, apply) (settles (succeed d) none refl)
        | inr acts ↦ rw (there, open_, acts, apply) (execute_cases graph d c.executor)
      ]
    ]
  ]

pub apply-Settles : (graph : Graph) (i : ℕ) (c : Controller) → Settles i (apply graph i c)
apply-Settles graph i c =
    apply_cases (Settles i) i c (λ x e h. absurd (ground (arith, h)))
      (λ d there settled e h.
        let same : d ≡ e = ground (arith, h) in
        (there ∙ ap some same, ap is_settled (sym same) ∙ settled))
      (λ d sent settled. settle-Settles i d sent c settled) graph

-- An error changes nothing and sends nothing.
pub apply_refused :
    (graph : Graph) (i : ℕ) (c : Controller) {e : Error}
    → (apply graph i c).2 ≡ raises e
    → apply graph i c ≡ (c, none, raises e)
unfolding settle
apply_refused graph i c {e} =
    apply_cases (λ o. o.2 ≡ raises e → o ≡ (c, none, raises e)) i c
      (λ x h. ap (λ r. (c, none, r)) h) (λ d there settled h. absurd (ground (arith, h)))
      (λ d sent settled h. absurd (ground (arith, h))) graph

-- The other decisions stay as they are.
pub apply-other :
    (graph : Graph) (i n : ℕ) (c : Controller)
    → nat_eqb i n ≡ false
    → Dict.get n (apply graph i c).0.decisions ≡ Dict.get n c.decisions
unfolding settle
apply-other graph i n c other =
    apply_cases (λ o. Dict.get n o.0.decisions ≡ Dict.get n c.decisions) i c (λ e. refl)
      (λ d there settled. refl) (λ d sent settled. Dict.get-put_other i n d c.decisions other) graph

-- A decision that `apply` returns is settled: applied, or with the error that it met. It is recorded
-- so, and a further call, whatever the roads by then, returns it again, sends nothing and changes
-- nothing.
pub apply_twice :
    (graph later : Graph) (i : ℕ) (c : Controller) (d : SignalControlDecision)
    → (apply graph i c).2 ≡ ok d
    → (is_settled d ≡ true)
      × (apply later i (apply graph i c).0 ≡ ((apply graph i c).0, none, ok d))
unfolding apply
apply_twice graph later i c d h =
    let (there, settled) = apply-Settles graph i c d h in (settled, rw (there, settled, apply) refl)
