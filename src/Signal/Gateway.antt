-- ===== src/Signal/Gateway.antt =====
-- services/gateway/signal_control.py: the queue of commands and the handlers around the controller of
-- Live. The time at which a command is issued is an argument, and the answers are the status codes with
-- the decision that they carry.
pub mod Queue
pub mod Handlers
mod Tests
use marga.Prelude.{
  ℕ, ◌+◌, ◌-◌, String, Bool, true, false, not, Option, none, some, List, [], ◌∷◌, ◌++◌,
  if◌then◌else◌, ltb, length, drop, keep, ◌==◌, string_eq,
}
use marga.Signal.State.{SignalAction, hold, extend_green_5, extend_green_10, next_phase}
use marga.Signal.Live.{
  Result, ok, raises, Error, Graph, Policy, Command, Executor, queue, adapter, or_else,
  SignalControlDecision, Controller, register_executor,
}
use marga.Signal.Live.Decide.{recommend}
use marga.Signal.Live.Execute.{Outcome, is_hold, apply, applied_after, decide_and_apply}

abbrev pub max_pending_commands : ℕ
max_pending_commands = 256

abbrev pub history_length : ℕ
history_length = 10

-- A command with its `issued_at`.
abbrev pub Issued : Type 0
Issued = Command × ℕ

-- `del xs[:-n]` leaves the last `n`.
unfoldable pub last {ℓ} : {A : Type ℓ} → ℕ → List A → List A
last n xs = drop (length xs - n) xs

pub record Gateway : Type 0 where
  pub controller : Controller
  pub pending : List Issued
  pub history : List Issued

abbrev pub is_change : Issued → Bool
is_change k = not (is_hold k.0.action)

-- `_queue_command`
unfoldable pub queue_command : Issued → Gateway → Gateway
unfolding last
queue_command k g =
    let pending = g.pending ++ k ∷ [] in
    record g {
      pending =
          if ltb max_pending_commands (length pending)
          then last max_pending_commands pending
          else pending;
      history = if is_change k then last history_length (g.history ++ k ∷ []) else g.history;
    }

-- `register_signal_executor` connects another sink than the queue, or none.
unfoldable pub register_signal_executor : Option (Command → Option String) → Gateway → Gateway
register_signal_executor none g = record g { controller = register_executor none g.controller }
register_signal_executor (some call) g = record g {
  controller = register_executor (some (adapter call)) g.controller;
}

abbrev pub reset_pending_commands : Gateway → Gateway
reset_pending_commands g = record g { pending = []; history = [] }

-- `drain_pending_commands` empties the queue and returns what it held.
abbrev pub drain_pending_commands : Gateway → Gateway × List Issued
drain_pending_commands g = (record g { pending = [] }, g.pending)

-- A command reaches the queue where the queue is the executor.
abbrev pub delivered : Option Executor → Option Command → ℕ → Gateway → Gateway
delivered (some queue) (some k) now g = queue_command (k, now) g
delivered _ _ now g = g

-- What a call of the controller does to the gateway.
unfoldable pub absorb : ℕ → Outcome → Gateway → Gateway × Result SignalControlDecision
unfolding queue_command
absorb now (c, sent, result) g =
    (delivered g.controller.executor sent now (record g { controller = c }), result)

pub data Answer : Type 0 where
  success : SignalControlDecision → Answer
  conflict : Error → Answer
  other_junction : Answer
  unknown_action : Answer

abbrev pub answer : Result SignalControlDecision → Answer
answer (ok d) = success d
answer (raises e) = conflict e

abbrev pub recommended : Graph → Bool → Controller × Result SignalControlDecision → Outcome
recommended graph true r = applied_after graph r
recommended graph false (c, r) = (c, none, r)

abbrev pub answered :
    (Result SignalControlDecision → Answer)
    → Gateway × Result SignalControlDecision
    → Gateway × Answer
answered f (g, r) = (g, f r)

-- `recommend`; `apply_it` is the flag of the request, `false` where there is no body.
unfoldable pub recommend_handler :
    Graph → Policy → ℕ → ℕ → String → Bool → Gateway → Gateway × Answer
unfolding recommend apply absorb
recommend_handler graph policy i now j apply_it g =
    answered answer
      (absorb now (recommended graph apply_it (recommend graph policy i j none g.controller)) g)

-- The values of `SignalAction`.
unfoldable pub parse_action : String → Option SignalAction
parse_action text =
    if text == "HOLD"
    then some hold
    else if text == "EXTEND_GREEN_5"
    then some extend_green_5
    else if text == "EXTEND_GREEN_10"
    then some extend_green_10
    else if text == "NEXT_PHASE"
    then some next_phase
    else none

pub record ApplyRequest : Type 0 where
  pub decision_id : Option ℕ
  pub action : Option String

-- The check of the junction, after the call.
abbrev pub answer_for : String → Result SignalControlDecision → Answer
answer_for j (raises e) = conflict e
answer_for j (ok d) = if d.junction_id == j then success d else other_junction

-- An empty text is no action.
abbrev pub named_action : Option String → Option String
named_action none = none
named_action (some text) = if text == "" then none else some text

unfoldable pub apply_action :
    Graph → Policy → ℕ → ℕ → String → Option String → Gateway → Gateway × Answer
unfolding recommend apply decide_and_apply absorb parse_action
apply_action graph policy i now j none g =
    answered (answer_for j) (absorb now (decide_and_apply graph policy i j g.controller) g)
apply_action graph policy i now j (some text) g = elim (parse_action text) [
  | none ↦ (g, unknown_action)
  | some a ↦
      answered (answer_for j)
        (absorb now (applied_after graph (recommend graph policy i j (some a) g.controller)) g)
]

-- `apply`
unfoldable pub apply_handler :
    Graph → Policy → ℕ → ℕ → String → ApplyRequest → Gateway → Gateway × Answer
unfolding apply absorb apply_action
apply_handler graph policy i now j request g = elim request.decision_id [
  | some n ↦ answered (answer_for j) (absorb now (apply graph n g.controller) g)
  | none ↦ apply_action graph policy i now j (named_action request.action) g
]
