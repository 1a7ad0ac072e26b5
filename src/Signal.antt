-- ===== src/Signal.antt =====
-- services/signal-rl/marga_signal_rl: adaptive signal timing. `State` has the actions and the
-- observation, `Safety` the deterministic envelope and `Mock` the training junction.
pub mod State
pub mod Safety
pub mod Envelope
pub mod Mock
pub mod Live
pub mod Gateway
mod Tests
