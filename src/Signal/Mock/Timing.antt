-- ===== src/Signal/Mock/Timing.antt =====
-- The phase clock of `MockSumoSignalEnvironment` (services/signal-rl/marga_signal_rl/environment.py).
use marga.Prelude.{
  ℕ, ◌+◌, ◌-◌, ◌*◌, ◌%◌, ◌≤◌, ◌<◌, ◌≡◌, ◌≢◌, ◌⊎◌, Bool, true, false, arith, if◌then◌else◌,
}
use marga.Signal.State.{
  second, SignalAction, hold, extend_green_5, extend_green_10, next_phase, action_extension_s,
  SignalObservation,
}
use marga.Signal.Safety.{validate, min_green_s, max_green_s, ped_clearance_buffer_s}
use marga.Signal.Envelope.{leaving_bounds}
use marga.Signal.Mock.{
  Env, Approach, Draws, Phase, ns_green, ew_green, phase_at, phase_count, default_s, step_s,
  reset_state, advance_phase, tick, simulate_traffic, round_2, make_obs, apply_action, step,
}

abbrev pub is_green_phase : Phase → Bool
is_green_phase ns_green = true
is_green_phase ew_green = true
is_green_phase _ = false

-- The clock of a phase: it is pending, within its cap and on the grid of the decision interval. The
-- scheduled end is off that grid by the two seconds of an all-red phase.
pub record IsTimed (v : Env) : Type 0 where
  pub in_range : v.phase_index < phase_count
  pub pending : v.phase_elapsed < v.phase_duration
  pub capped : v.phase_elapsed ≤ max_green_s
  pub elapsed_grid : v.phase_elapsed % step_s ≡ 0
  pub duration_grid : v.phase_duration % step_s ≡ default_s (phase_at v.phase_index) % step_s
  pub at_least : default_s (phase_at v.phase_index) ≤ v.phase_duration

round_2-id : (t : ℕ) → t % second ≡ 0 → round_2 t ≡ t
unfolding round_2
round_2-id t h = omega arith

phase_at-next :
    (i : ℕ)
    → i < phase_count
    → default_s (phase_at ((i + 1) % phase_count))
      ≡ (if is_green_phase (phase_at i) then 2 * second else 25 * second)
unfolding phase_at default_s
phase_at-next i h = ground arith

default_s-cases :
    (i : ℕ)
    → default_s (phase_at i) ≡ (if is_green_phase (phase_at i) then 25 * second else 2 * second)
unfolding phase_at default_s
default_s-cases i = ground arith

make_obs-times :
    {v : Env}
    → IsTimed v
    → ((make_obs v).phase_elapsed_s ≡ v.phase_elapsed)
      × ((make_obs v).phase_remaining_s ≡ v.phase_duration - v.phase_elapsed)
unfolding make_obs
make_obs-times {v} t = (
  round_2-id v.phase_elapsed (omega arith),
  round_2-id (v.phase_duration - v.phase_elapsed) (ground (arith, default_s-cases v.phase_index)),
)

advance_phase-IsTimed : {v : Env} → IsTimed v → IsTimed (advance_phase v)
unfolding advance_phase
advance_phase-IsTimed {v} t =
    ground (arith, phase_at-next v.phase_index, default_s-cases ((v.phase_index + 1) % phase_count))

HasRoom : Env → Type 0
HasRoom v = (v.phase_duration ≤ v.phase_elapsed + step_s) ⊎ (v.phase_elapsed < max_green_s)

tick-IsTimed : {v : Env} → IsTimed v → HasRoom v → IsTimed (tick step_s v)
unfolding tick advance_phase HasRoom
tick-IsTimed {v} t room =
    ground (arith, phase_at-next v.phase_index, default_s-cases ((v.phase_index + 1) % phase_count))

-- The envelope leaves the phase, or has not reached the maximum, or holds under the clearance.
validate-cases :
    (obs : SignalObservation) (p : SignalAction)
    → ((validate obs p).action ≡ next_phase)
      ⊎ ((obs.phase_elapsed_s < max_green_s)
          ⊎ (((validate obs p).action ≡ hold) × (obs.phase_remaining_s < ped_clearance_buffer_s)))
unfolding validate
validate-cases obs hold = ground arith
validate-cases obs p = ground arith

apply_action-IsTimed : (a : SignalAction) {v : Env} → IsTimed v → IsTimed (apply_action a v)
unfolding apply_action action_extension_s
apply_action-IsTimed hold t = t
apply_action-IsTimed extend_green_5 t = omega arith
apply_action-IsTimed extend_green_10 t = omega arith
apply_action-IsTimed next_phase t = advance_phase-IsTimed t

apply_action-HasRoom :
    (a : SignalAction) {v : Env}
    → IsTimed v
    → (a ≡ next_phase)
      ⊎ ((v.phase_elapsed < max_green_s)
          ⊎ ((a ≡ hold) × (v.phase_duration - v.phase_elapsed < ped_clearance_buffer_s)))
    → HasRoom (apply_action a v)
unfolding apply_action HasRoom advance_phase
apply_action-HasRoom hold t h = ground arith
apply_action-HasRoom a t h = ground arith

step-HasRoom :
    (a : SignalAction) {v : Env}
    → IsTimed v
    → HasRoom (apply_action (validate (make_obs v) a).action v)
step-HasRoom a {v} t =
    apply_action-HasRoom (validate (make_obs v) a).action t
      (ground (arith, validate-cases (make_obs v) a, make_obs-times t))

simulate-times :
    (d : Draws) (v : Env) → IsTimed (tick step_s v) → IsTimed (simulate_traffic step_s d v)
unfolding simulate_traffic
simulate-times d v t = record {
  in_range = t.in_range;
  pending = t.pending;
  capped = t.capped;
  elapsed_grid = t.elapsed_grid;
  duration_grid = t.duration_grid;
  at_least = t.at_least;
}

-- A step keeps the phase clock pending, on its grid and at ninety seconds at most, whatever action
-- is proposed and whatever is drawn.
pub step-IsTimed : (a : SignalAction) (d : Draws) {v : Env} → IsTimed v → IsTimed (step a d v).0
unfolding step
step-IsTimed a d {v} t =
    simulate-times d _ (tick-IsTimed (apply_action-IsTimed _ t) (step-HasRoom a t))

-- A green phase that a step leaves has lasted ten seconds.
pub step-min_green :
    (a : SignalAction) (d : Draws) {v : Env}
    → IsTimed v
    → is_green_phase (phase_at v.phase_index) ≡ true
    → (step a d v).0.phase_index ≢ v.phase_index
    → min_green_s ≤ v.phase_elapsed
unfolding step simulate_traffic tick apply_action action_extension_s
step-min_green a d {v} t green left =
    ground (arith, default_s-cases v.phase_index, leaving_bounds (make_obs v) a, make_obs-times t)

-- Where the envelope lets a step leave a green phase, the step simulates no time of the all-red
-- phase between: it ends at the start of the other green phase.
pub next_phase-skips_all_red :
    (a : SignalAction) (d : Draws) {v : Env}
    → IsTimed v
    → is_green_phase (phase_at v.phase_index) ≡ true
    → (validate (make_obs v) a).action ≡ next_phase
    → ((step a d v).0.phase_index ≡ (v.phase_index + 2) % phase_count)
      × ((step a d v).0.phase_elapsed ≡ 0)
unfolding step simulate_traffic tick apply_action advance_phase phase_at default_s
next_phase-skips_all_red a d {v} t green leaves = ground arith

-- Episodes: a reset, and then any steps.
pub data Reach : Env → Type 0 where
  start : (n s e w : Approach) → Reach (reset_state n s e w)
  next : {v : Env} (a : SignalAction) (d : Draws) → Reach v → Reach (step a d v).0

reset-IsTimed : (n s e w : Approach) → IsTimed (reset_state n s e w)
unfolding reset_state
reset-IsTimed n s e w = omega arith

-- In every state of an episode the phase clock is pending, on its grid and at ninety seconds at most.
pub Reach-IsTimed : {v : Env} → Reach v → IsTimed v
Reach-IsTimed (start n s e w) = reset-IsTimed n s e w
Reach-IsTimed (next a d r) = step-IsTimed a d (Reach-IsTimed r)
