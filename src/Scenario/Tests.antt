-- ===== src/Scenario/Tests.antt =====
-- Runs of the scenario modules, and their theorems at concrete inputs.
use mathlib.Core.List.Permᴰ
use marga.Prelude.{
  ℕ, String, Option, none, List, [], ◌∷◌, string_eq, ◌+◌, ◌-◌, ◌*◌, ◌≡◌, refl, false, some, arith,
  inr, if◌then◌else◌,
}
use marga.Scenario.Failures.{
  FailureEffect, FailureType, Parameters, FailureScheduleEntry, PositionEstimate,
  get_active_failures, effect_of, apply_gps_degradation, worst_of, worsen, degrades,
}
use marga.Scenario.Failures.Worst.{apply_gps_degradation-worst, uncertainties, greatest}
use marga.Scenario.TimeControl.{
  TimeController, sim_time, running, sets_speed, operate, set_speed, flush,
}
use marga.Scenario.TimeControl.Course.{IsClock, set_to, sim_time-operate}

-- At twice real time since 3 s.
abbrev fast_clock : TimeController
fast_clock = record {
  speed_multiplier = 2_000;
  paused = false;
  sim_time_s = 7_000;
  wall_resume_s = some 3_000_000;
}

fast_clock-IsClock : IsClock 5_000_000 fast_clock
fast_clock-IsClock = record {
  resumed = inr (refl, 3_000_000, refl, omega arith);
  slow = omega arith;
  fast = omega arith;
}

sim_time_run :
    sim_time 6_000_000
      (operate (sets_speed 500) (record { first = 5_000_000; second = 5_000_000 }) fast_clock)
    ≡ 4_500_007_000
unfolding operate set_speed flush sim_time running
sim_time_run = refl

sim_time-operate_example :
    let c' =
      operate (sets_speed 500) (record { first = 5_000_000; second = 5_000_000 }) fast_clock in
    sim_time 6_000_000 c'
    ≡ set_to (sets_speed 500) 5_000_000 fast_clock
      + (if c'.paused then 0 else (6_000_000 - 5_000_000) * c'.speed_multiplier)
sim_time-operate_example =
    sim_time-operate (sets_speed 500) 5_000_000 6_000_000 fast_clock fast_clock-IsClock
      (omega arith)

abbrev nothing : Parameters
nothing = record {
  affected_actors = none;
  uncertainty_m = none;
  affected_services = none;
  rsu_id = none;
  edge_id = none;
  lanes_remaining = none;
  visibility_m = none;
  condition = none;
  edge_ids = none;
  density_factor = none;
}

abbrev jammed : Option (List String) → Option ℕ → FailureScheduleEntry
jammed actors uncertainty = record {
  entry_id = "e";
  failure_type = FailureType.gps_degradation;
  start_sim_time_s = 10;
  duration_s = some 5;
  parameters = record nothing { affected_actors = actors; uncertainty_m = uncertainty };
}

abbrev schedule : List FailureScheduleEntry
schedule =
    jammed none (some 20_000)
    ∷ jammed (some ("b" ∷ [])) none
    ∷ jammed (some ("a" ∷ [])) (some 30_000)
    ∷ []

abbrev position : PositionEstimate
position = record { actor_id = "a"; uncertainty_m = 5_000; confidence = 100_000 }

worst_run :
    apply_gps_degradation position (get_active_failures schedule 12) none
    ≡ record position { uncertainty_m = 30_000; confidence = 70_000 }
unfolding apply_gps_degradation worst_of worsen degrades get_active_failures effect_of
worst_run = refl

over_run : get_active_failures schedule 15 ≡ []
unfolding get_active_failures
over_run = refl

abbrev jams : List FailureEffect
jams = get_active_failures schedule 12

-- The same effects, the first two swapped.
abbrev swapped : List FailureEffect
swapped =
    effect_of (jammed (some ("b" ∷ [])) none)
    ∷ effect_of (jammed none (some 20_000))
    ∷ effect_of (jammed (some ("a" ∷ [])) (some 30_000))
    ∷ []

apply_gps_degradation-worst_example :
    apply_gps_degradation position swapped none
    ≡ record position { uncertainty_m = 30_000; confidence = 70_000 }
unfolding get_active_failures effect_of uncertainties degrades greatest
apply_gps_degradation-worst_example =
    apply_gps_degradation-worst position jams {ordered = swapped} none (Permᴰ.swap refl refl)
