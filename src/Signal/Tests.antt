-- ===== src/Signal/Tests.antt =====
-- Runs of the signal modules, and their theorems at concrete inputs.
use marga.Prelude.{◌*◌, ◌≤◌, ◌≡◌, ◌≢◌, refl, ◌↔◌, ◌⊎◌, true, [], ◌∷◌, arith}
use marga.Signal.State.{
  second, hold, next_phase, SignalObservation, total_ped_demand, action_extension_s,
}
use marga.Signal.Safety.{validate, min_green_s, max_green_s, ped_clearance_buffer_s}
use marga.Signal.Envelope.{leaving_bounds, max_green_inverted}
use marga.Signal.Mock.{
  Env, Approach, Draw, Draws, phase_at, is_green, default_s, reset_state, advance_phase, flow, tick,
  simulate_traffic, make_obs, apply_action, step,
}
use marga.Signal.Mock.Timing.{IsTimed, start, next, Reach-IsTimed}

abbrev busy : Approach
busy = record { queue = 9_000; speed = 4_000; ped = 2 }

abbrev draw : Draw
draw = record {
  discharge = 2;
  speed_gain = 500;
  arrived = 400;
  speed_loss = 300;
  ped_arrives = true;
}

abbrev draws : Draws
draws = record { n = draw; s = draw; e = draw; w = draw }

abbrev opening : Env
opening = record {
  phase_index = 0;
  phase_elapsed = 0;
  phase_duration = 25 * second;
  clock = 0;
  n = busy;
  s = busy;
  e = busy;
  w = busy;
}

abbrev twelve : Env
twelve = record opening { phase_elapsed = 15 * second }

program : Unit {0}
unfolding validate total_ped_demand phase_at is_green default_s reset_state advance_phase flow tick
    simulate_traffic make_obs apply_action step action_extension_s
program = tt

reset_runs : reset_state busy busy busy busy ≡ opening
unfolding program
reset_runs = refl

step_runs : (step next_phase draws twelve).0 ≡ record {
  phase_index = 2;
  phase_elapsed = 0;
  phase_duration = 25 * second;
  clock = 5 * second;
  n = record { queue = 9_400; speed = 3_700; ped = 3 };
  s = record { queue = 9_400; speed = 3_700; ped = 3 };
  e = record { queue = 7_000; speed = 4_500; ped = 1 };
  w = record { queue = 7_000; speed = 4_500; ped = 1 };
}
unfolding program
step_runs = refl

early_is_held : (step next_phase draws opening).0.phase_index ≡ 0
unfolding program
early_is_held = refl

opening-IsTimed : IsTimed opening
unfolding program
opening-IsTimed = omega arith

twelve-IsTimed : IsTimed twelve
unfolding program
twelve-IsTimed = omega arith

abbrev late : SignalObservation
late = record {
  phase_index = 0;
  phase_elapsed_s = 95 * second;
  phase_remaining_s = 2 * second;
  approaches = record { movement_id = "N"; queue_length = 4; pedestrian_demand = 1 } ∷ [];
}

leaving_bounds_example :
    (min_green_s ≤ late.phase_elapsed_s)
    × ((total_ped_demand late ≡ 0)
        ⊎ ((ped_clearance_buffer_s ≤ late.phase_remaining_s)
            ⊎ ((max_green_s ≤ late.phase_elapsed_s) × (hold ≢ next_phase))))
unfolding program
leaving_bounds_example = leaving_bounds late hold refl

max_green_inverted_example : ((validate late hold).action ≡ next_phase) ↔ (hold ≢ next_phase)
unfolding program
max_green_inverted_example = max_green_inverted late hold (omega arith) (omega arith) (omega arith)

Reach-IsTimed_example : IsTimed (step hold draws (reset_state busy busy busy busy)).0
Reach-IsTimed_example = Reach-IsTimed (next hold draws (start busy busy busy busy))
