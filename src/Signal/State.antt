-- ===== src/Signal/State.antt =====
-- services/signal-rl/marga_signal_rl/actions.py and state.py. Times are microseconds: the source's
-- seconds as floats and the differences of its datetimes are both exact in that unit.
use marga.Prelude.{ℕ, ◌+◌, ◌*◌, String, Bool, true, false, List, [], ◌∷◌}

abbrev pub second : ℕ
second = 1_000_000

pub data SignalAction : Type 0 where
  hold extend_green_5 extend_green_10 next_phase : SignalAction

-- `ACTION_EXTENSION_S`
unfoldable pub action_extension_s : SignalAction → ℕ
action_extension_s hold = 0
action_extension_s extend_green_5 = 5 * second
action_extension_s extend_green_10 = 10 * second
action_extension_s next_phase = 0

abbrev pub is_next_phase : SignalAction → Bool
is_next_phase next_phase = true
is_next_phase _ = false

abbrev pub is_extension : SignalAction → Bool
is_extension extend_green_5 = true
is_extension extend_green_10 = true
is_extension _ = false

-- The counters of an approach. Its float measurements feed the reward and the policy only.
pub record ApproachState : Type 0 where
  pub movement_id : String
  pub queue_length : ℕ
  pub pedestrian_demand : ℕ

pub record SignalObservation : Type 0 where
  pub phase_index : ℕ
  pub phase_elapsed_s : ℕ
  pub phase_remaining_s : ℕ
  pub approaches : List ApproachState

sum_queue : List ApproachState → ℕ
sum_queue [] = 0
sum_queue (a ∷ rest) = a.queue_length + sum_queue rest

sum_ped_demand : List ApproachState → ℕ
sum_ped_demand [] = 0
sum_ped_demand (a ∷ rest) = a.pedestrian_demand + sum_ped_demand rest

unfoldable pub total_queue : SignalObservation → ℕ
unfolding sum_queue
total_queue obs = sum_queue obs.approaches

unfoldable pub total_ped_demand : SignalObservation → ℕ
unfolding sum_ped_demand
total_ped_demand obs = sum_ped_demand obs.approaches
