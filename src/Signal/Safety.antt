-- ===== src/Signal/Safety.antt =====
-- services/signal-rl/marga_signal_rl/safety.py: every proposal of the policy passes through
-- `validate`. The texts of `reason` are constructors with the numbers that the texts show.
use marga.Prelude.{ℕ, ◌-◌, ◌*◌, Bool, true, false, not, ◌&&◌, if◌then◌else◌, ltb, leb}
use marga.Signal.State.{
  second, SignalAction, hold, next_phase, is_next_phase, is_extension, SignalObservation,
  total_ped_demand,
}

abbrev pub min_green_s : ℕ
min_green_s = 10 * second

abbrev pub max_green_s : ℕ
max_green_s = 90 * second

abbrev pub ped_clearance_buffer_s : ℕ
ped_clearance_buffer_s = 5 * second

abbrev pub extension_headroom_s : ℕ
extension_headroom_s = 15 * second

pub data Reason : Type 0 where
  min_green_not_satisfied : ℕ → Reason
  max_green_exceeded : ℕ → Reason
  pedestrian_clearance : ℕ → ℕ → Reason
  extension_blocked : ℕ → Reason
  accepted : Reason

pub record SafetyVerdict : Type 0 where
  pub allowed : Bool
  pub action : SignalAction
  pub reason : Reason
  pub safety_override : Bool

abbrev substitute : SignalAction → Reason → SafetyVerdict
substitute action reason = record {
  allowed = true;
  action = action;
  reason = reason;
  safety_override = true;
}

-- `SignalSafetyController.validate`: the first rule that applies decides.
unfoldable pub validate : SignalObservation → SignalAction → SafetyVerdict
validate obs proposed =
    if is_next_phase proposed && ltb elapsed min_green_s
    then substitute hold (min_green_not_satisfied elapsed)
    else if leb max_green_s elapsed && not (is_next_phase proposed)
    then substitute next_phase (max_green_exceeded elapsed)
    else if is_next_phase proposed && ltb 0 ped && ltb remaining ped_clearance_buffer_s
    then substitute hold (pedestrian_clearance ped remaining)
    else if is_extension proposed && ltb (max_green_s - extension_headroom_s) elapsed
    then substitute hold (extension_blocked elapsed)
    else record { allowed = true; action = proposed; reason = accepted; safety_override = false }
  where
    elapsed : ℕ
    elapsed = obs.phase_elapsed_s

    remaining : ℕ
    remaining = obs.phase_remaining_s

    ped : ℕ
    ped = total_ped_demand obs
