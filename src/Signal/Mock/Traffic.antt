-- ===== src/Signal/Mock/Traffic.antt =====
-- The traffic of `MockSumoSignalEnvironment` (services/signal-rl/marga_signal_rl/environment.py).
use marga.Prelude.{ℕ, ◌≤◌, ◌≡◌, true, false, Bool, arith}
use marga.Signal.State.{SignalAction}
use marga.Signal.Mock.{
  Env, Approach, Draw, Draws, Direction, north, south, east, west, flow, phase_at, is_green, step,
  simulate_traffic, tick, apply_action, advance_phase,
}

abbrev pub at : Direction → Env → Approach
at north v = v.n
at south v = v.s
at east v = v.e
at west v = v.w

abbrev pub IsBounded : Approach → Type 0
IsBounded a = (a.queue ≤ 35_000) × (300 ≤ a.speed) × (a.speed ≤ 10_000)

flow-IsBounded : (g : Bool) (d : Draw) (a : Approach) → IsBounded a → IsBounded (flow g d a)
unfolding flow
flow-IsBounded true d a h = omega arith
flow-IsBounded false d a h = omega arith

-- What one step does to the counters of an approach that is green, or red.
abbrev pub Moves : Bool → Approach → Approach → Type 0
Moves true a b = (b.queue ≤ a.queue) × (b.ped ≤ a.ped)
Moves false a b = (a.queue ≤ b.queue) × (a.ped ≤ b.ped)

flow-Moves : (g : Bool) (d : Draw) (a : Approach) → IsBounded a → Moves g a (flow g d a)
unfolding flow
flow-Moves true d a h = omega arith
flow-Moves false d a h = ground arith

apply_action-at : (q : Direction) (a : SignalAction) (v : Env) → at q (apply_action a v) ≡ at q v
unfolding apply_action advance_phase
apply_action-at north a v = ground arith
apply_action-at q a v = ground arith

abbrev draw_of : Direction → Draws → Draw
draw_of north d = d.n
draw_of south d = d.s
draw_of east d = d.e
draw_of west d = d.w

simulate-at :
    (q : Direction) (dt : ℕ) (d : Draws) (v : Env)
    → at q (simulate_traffic dt d v)
      ≡ flow (is_green (phase_at (simulate_traffic dt d v).phase_index) q) (draw_of q d) (at q v)
unfolding simulate_traffic tick advance_phase
simulate-at north dt d v = ground arith
simulate-at q dt d v = ground arith

-- On every approach a step keeps the queue at 35 vehicles at most and the speed between 0.3 and 10
-- metres a second; queue and pedestrians do not grow where the phase after the step is green, and
-- do not shrink where it is not.
pub step-traffic :
    (q : Direction) (a : SignalAction) (d : Draws) (v : Env)
    → IsBounded (at q v)
    → IsBounded (at q (step a d v).0)
      × Moves (is_green (phase_at (step a d v).0.phase_index) q) (at q v) (at q (step a d v).0)
unfolding step
step-traffic q a d v h =
    rw (simulate-at, apply_action-at)
      (
        flow-IsBounded (is_green (phase_at (step a d v).0.phase_index) q) (draw_of q d) (at q v) h,
        flow-Moves (is_green (phase_at (step a d v).0.phase_index) q) (draw_of q d) (at q v) h,
      )
