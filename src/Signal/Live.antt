-- ===== src/Signal/Live.antt =====
-- services/signal-rl/marga_signal_rl/live_controller.py: `LiveSignalController`. The mobility graph and
-- the greedy policy are functions that a call is given; of an edge they give the counters that the
-- envelope and the commands read. Identifiers of decisions are numbers, drawn by the caller. Negative
-- values of `phase_remaining_s`, which the schema does not exclude, are left out.
pub mod Decide
pub mod Execute
pub mod Record
pub mod Apply
pub mod Spent
pub mod Once
pub mod Roads
pub mod Safe
mod Tests
use marga.Prelude.{
  ℕ, ◌+◌, ◌-◌, ◌*◌, ◌%◌, String, Bool, true, false, ◌||◌, Option, none, some, List, [], ◌∷◌, ◌++◌,
  if◌then◌else◌, nat_eqb, length, ◌==◌, string_eq,
}
use mathlib.Core.List.{reverse}
use marga.Prelude.Dict
use marga.Prelude.Dict.{Dict}
use marga.Signal.State.{
  SignalAction, hold, is_next_phase, action_extension_s, ApproachState, SignalObservation,
}
use marga.Signal.Safety.{validate, Reason}

-- `SignalControlError`, by its texts.
pub data Error : Type 0 where
  duplicate_movement no_topology no_telemetry no_evidence unknown_decision : Error

pub data Result (A : Type 0) : Type 0 where
  ok : A → Result A
  raises : Error → Result A

infixl 5 ◌>>=◌
abbrev pub ◌>>=◌ : {A B : Type 0} → Result A → (A → Result B) → Result B
ok a >>= f = f a
raises e >>= f = raises e

-- `value`, or the error where it is None.
abbrev pub or_raise : {A : Type 0} → Option A → Error → Result A
or_raise none e = raises e
or_raise (some a) e = ok a

abbrev pub or_else {ℓ} : {A : Type ℓ} → Option A → A → A
or_else none d = d
or_else (some a) d = a

abbrev pub is_some : {A : Type 0} → Option A → Bool
is_some none = false
is_some (some a) = true

pub record SignalApproachTopology : Type 0 where
  pub movement_id : String
  pub incoming_edge_ids : List String

pub record SignalJunctionTopology : Type 0 where
  pub junction_id : String
  pub signal_id : String
  pub approaches : List SignalApproachTopology
  pub phase_index_by_name : Dict String ℕ
  pub phase_count : ℕ
  pub default_phase_duration_s : ℕ

pub record TrafficSignalState : Type 0 where
  pub intersection_id : String
  pub ts : ℕ
  pub current_phase : String
  pub phase_remaining_s : Option ℕ

pub record EdgeState : Type 0 where
  pub queue_length : ℕ
  pub pedestrian_count : ℕ

abbrev pub Graph : Type 0
Graph = String → Option EdgeState

abbrev pub Policy : Type 0
Policy = SignalObservation → SignalAction

pub data Setting : Type 0 where
  phase_index : ℕ → Setting
  duration_s : ℕ → Setting

-- What the adapter is sent.
pub record Command : Type 0 where
  pub signal_id : String
  pub action : SignalAction
  pub setting : Setting

-- The sink of the commands: the queue of the gateway, which takes every command, or an adapter,
-- which may raise with a text.
pub data Executor : Type 0 where
  queue : Executor
  adapter : (Command → Option String) → Executor

abbrev pub run_executor : Executor → Command → Option String
run_executor queue command = none
run_executor (adapter call) command = call command

-- `application_error`
pub data Failure : Type 0 where
  no_executor : Failure
  raised : Error → Failure
  refused : String → Failure

pub record SignalControlDecision : Type 0 where
  pub decision_id : ℕ
  pub junction_id : String
  pub signal_id : String
  pub requested_action : SignalAction
  pub effective_action : SignalAction
  pub safety_override : Bool
  pub safety_reason : Reason
  pub applied : Bool
  pub application_error : Option Failure

pub record Controller : Type 0 where
  pub topologies : Dict String SignalJunctionTopology
  pub signal_states : Dict String TrafficSignalState
  pub phase_started_at : Dict String ℕ
  pub last_phase : Dict String String
  pub executor : Option Executor
  pub decisions : Dict ℕ SignalControlDecision
  pub decision_order : List ℕ
  pub decision_limit : ℕ

unfoldable pub clear : Controller → Controller
clear c = record c {
  topologies = [];
  signal_states = [];
  phase_started_at = [];
  last_phase = [];
  decisions = [];
  decision_order = [];
  executor = none;
}

unfoldable pub has_movement : String → List SignalApproachTopology → Bool
has_movement m [] = false
has_movement m (a ∷ rest) = a.movement_id == m || has_movement m rest

-- Whether two approaches have the same movement.
unfoldable pub repeats_movement : List SignalApproachTopology → Bool
unfolding has_movement
repeats_movement [] = false
repeats_movement (a ∷ rest) = has_movement a.movement_id rest || repeats_movement rest

unfoldable pub register_topology :
    SignalJunctionTopology → Controller → Controller × Result SignalJunctionTopology
unfolding repeats_movement Dict.put
register_topology t c =
    if repeats_movement t.approaches
    then (c, raises duplicate_movement)
    else (record c { topologies = Dict.put t.junction_id t c.topologies }, ok t)

abbrev pub register_executor : Option Executor → Controller → Controller
register_executor executor c = record c { executor = executor }

abbrev pub same_phase : Option String → String → Bool
same_phase none phase = false
same_phase (some previous) phase = previous == phase

unfoldable pub observe_signal : TrafficSignalState → Controller → Controller
unfolding Dict.put Dict.get
observe_signal s c =
    if same_phase (Dict.get s.intersection_id c.last_phase) s.current_phase
    then record c { signal_states = Dict.put s.intersection_id s c.signal_states }
    else record c {
      signal_states = Dict.put s.intersection_id s c.signal_states;
      phase_started_at = Dict.put s.intersection_id s.ts c.phase_started_at;
      last_phase = Dict.put s.intersection_id s.current_phase c.last_phase;
    }
