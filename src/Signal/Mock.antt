-- ===== src/Signal/Mock.antt =====
-- services/signal-rl/marga_signal_rl/environment.py, `MockSumoSignalEnvironment`: the four-way
-- junction on which the policy is trained. Queues are thousandths of a vehicle and speeds
-- millimetres a second; each random draw of a step is an argument.
pub mod Timing
pub mod Traffic
use marga.Prelude.{
  String, ℕ, ◌+◌, ◌-◌, ◌*◌, ◌/◌, ◌%◌, ◌≤◌, Bool, true, false, [], ◌∷◌, if◌then◌else◌, leb, min, max,
}
use marga.Signal.State.{
  second, SignalAction, next_phase, is_next_phase, is_extension, action_extension_s,
  SignalObservation, ApproachState,
}
use marga.Signal.Safety.{validate}

-- The entries of `_PHASE_PROGRAMME`, in its order.
pub data Phase : Type 0 where
  ns_green all_red_1 ew_green all_red_2 : Phase

unfoldable pub phase_at : ℕ → Phase
phase_at i =
    if leb i 0
    then ns_green
    else if leb i 1
    then all_red_1
    else if leb i 2
    then ew_green
    else all_red_2

abbrev pub phase_count : ℕ
phase_count = 4

pub data Direction : Type 0 where
  north south east west : Direction

-- `movements[d] == "GREEN"`
unfoldable pub is_green : Phase → Direction → Bool
is_green ns_green north = true
is_green ns_green south = true
is_green ew_green east = true
is_green ew_green west = true
is_green _ _ = false

-- `default_s`
unfoldable pub default_s : Phase → ℕ
default_s ns_green = 25 * second
default_s all_red_1 = 2 * second
default_s ew_green = 25 * second
default_s all_red_2 = 2 * second

-- One approach: its entry in `_queues`, `_speeds` and `_ped`.
pub record Approach : Type 0 where
  pub queue : ℕ
  pub speed : ℕ
  pub ped : ℕ

pub record Env : Type 0 where
  pub phase_index : ℕ
  pub phase_elapsed : ℕ
  pub phase_duration : ℕ
  pub clock : ℕ
  pub n : Approach
  pub s : Approach
  pub e : Approach
  pub w : Approach

-- What the generator yields for one direction in one step: vehicles discharged and the gain in
-- speed on green; vehicles arrived, the loss of speed and whether a pedestrian came on red.
pub record Draw : Type 0 where
  pub discharge : ℕ
  pub speed_gain : ℕ
  pub arrived : ℕ
  pub speed_loss : ℕ
  pub ped_arrives : Bool

pub record Draws : Type 0 where
  pub n : Draw
  pub s : Draw
  pub e : Draw
  pub w : Draw

abbrev pub step_s : ℕ
step_s = 5 * second

abbrev pub episode_duration_s : ℕ
episode_duration_s = 3600 * second

-- `_reset_state`, with the drawn queues, speeds and pedestrians of the four approaches.
unfoldable pub reset_state : Approach → Approach → Approach → Approach → Env
unfolding default_s phase_at
reset_state n s e w = record {
  phase_index = 0;
  phase_elapsed = 0;
  phase_duration = default_s (phase_at 0);
  clock = 0;
  n = n;
  s = s;
  e = e;
  w = w;
}

unfoldable pub advance_phase : Env → Env
advance_phase v =
    let i = (v.phase_index + 1) % phase_count in
    record v { phase_index = i; phase_elapsed = 0; phase_duration = default_s (phase_at i) }

-- The body of the loop over the directions in `_simulate_traffic`.
unfoldable pub flow : Bool → Draw → Approach → Approach
flow true d a = record {
  queue = a.queue - min (a.queue / 1000) d.discharge * 1000;
  speed = min 10_000 (a.speed + d.speed_gain);
  ped = a.ped - 1;
}
flow false d a = record {
  queue = min 35_000 (a.queue + d.arrived);
  speed = max 300 (a.speed - d.speed_loss);
  ped = if d.ped_arrives then a.ped + 1 else a.ped;
}

unfoldable pub tick : ℕ → Env → Env
tick dt v =
    let v' = record v { clock = v.clock + dt; phase_elapsed = v.phase_elapsed + dt } in
    if leb v'.phase_duration v'.phase_elapsed then advance_phase v' else v'

unfoldable pub simulate_traffic : ℕ → Draws → Env → Env
simulate_traffic dt d v =
    let u = tick dt v in
    let p = phase_at u.phase_index in
    record u {
      n = flow (is_green p north) d.n u.n;
      s = flow (is_green p south) d.s u.s;
      e = flow (is_green p east) d.e u.e;
      w = flow (is_green p west) d.w u.w;
    }

-- `round(x, 2)` of seconds. Ties do not occur: the times of this environment are whole seconds.
unfoldable pub round_2 : ℕ → ℕ
round_2 t = (t + 5_000) / 10_000 * 10_000

abbrev approach : String → Approach → ApproachState
approach d a = record { movement_id = d; queue_length = a.queue / 1000; pedestrian_demand = a.ped }

unfoldable pub make_obs : Env → SignalObservation
unfolding round_2
make_obs v = record {
  phase_index = v.phase_index;
  phase_elapsed_s = round_2 v.phase_elapsed;
  phase_remaining_s = round_2 (v.phase_duration - v.phase_elapsed);
  approaches = approach "N" v.n ∷ approach "S" v.s ∷ approach "E" v.e ∷ approach "W" v.w ∷ [];
}

-- `Apply action to signal state` in `step`.
unfoldable pub apply_action : SignalAction → Env → Env
apply_action a v =
    if is_next_phase a
    then advance_phase v
    else if is_extension a
    then record v { phase_duration = v.phase_duration + action_extension_s a }
    else v

-- `step` without the reward: the environment after it, the observation, and whether the episode is
-- done.
unfoldable pub step : SignalAction → Draws → Env → Env × SignalObservation × Bool
step action d v =
    let effective = (validate (make_obs v) action).action in
    let v' = simulate_traffic step_s d (apply_action effective v) in
    (v', make_obs v', leb episode_duration_s v'.clock)
