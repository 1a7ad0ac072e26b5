-- ===== src/Signal/Envelope.antt =====
-- What the safety envelope of services/signal-rl/marga_signal_rl/safety.py guarantees.
use marga.Prelude.{◌*◌, ◌≤◌, ◌<◌, ◌≡◌, ◌≢◌, ◌↔◌, ◌⊎◌, true, arith}
use marga.Signal.State.{
  second, SignalAction, hold, next_phase, is_extension, SignalObservation, total_ped_demand,
}
use marga.Signal.Safety.{validate, min_green_s, max_green_s, ped_clearance_buffer_s}

-- Where the effective action leaves the phase, ten seconds of it have passed, and either no
-- pedestrian waits, or five seconds remain, or ninety seconds have passed and the proposal was
-- another one.
pub leaving_bounds :
    (obs : SignalObservation) (proposed : SignalAction)
    → (validate obs proposed).action ≡ next_phase
    → (min_green_s ≤ obs.phase_elapsed_s)
      × ((total_ped_demand obs ≡ 0)
          ⊎ ((ped_clearance_buffer_s ≤ obs.phase_remaining_s)
              ⊎ ((max_green_s ≤ obs.phase_elapsed_s) × (proposed ≢ next_phase))))
unfolding validate
leaving_bounds obs hold leaves = ground arith
leaving_bounds obs p leaves = ground arith

-- Where the effective action extends the phase, at most 75 seconds of it have passed, and the
-- extension is the one that was proposed.
pub extension_bounds :
    (obs : SignalObservation) (proposed : SignalAction)
    → is_extension (validate obs proposed).action ≡ true
    → (obs.phase_elapsed_s ≤ 75 * second) × ((validate obs proposed).action ≡ proposed)
unfolding validate
extension_bounds obs hold extends = ground arith
extension_bounds obs p extends = ground arith

-- The verdict reports an override exactly when it changed the proposal, and it never blocks.
pub override_iff :
    (obs : SignalObservation) (proposed : SignalAction)
    → (((validate obs proposed).safety_override ≡ true)
        ↔ ((validate obs proposed).action ≢ proposed))
      × ((validate obs proposed).allowed ≡ true)
unfolding validate
override_iff obs hold = ground arith
override_iff obs p = ground arith

-- From ninety seconds on, with pedestrians waiting and under five seconds remaining, the phase is
-- left exactly on the proposals that are not to leave it: the maximum is not enforced on a proposal
-- to leave, and the clearance is not enforced on the others.
pub max_green_inverted :
    (obs : SignalObservation) (proposed : SignalAction)
    → max_green_s ≤ obs.phase_elapsed_s
    → 0 < total_ped_demand obs
    → obs.phase_remaining_s < ped_clearance_buffer_s
    → ((validate obs proposed).action ≡ next_phase) ↔ (proposed ≢ next_phase)
unfolding validate
max_green_inverted obs hold late waiting short = ground arith
max_green_inverted obs p late waiting short = ground arith
