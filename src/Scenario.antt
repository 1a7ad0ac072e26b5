-- ===== src/Scenario.antt =====
-- services/scenario-service: what runs the simulated scenarios.
pub mod TimeControl
pub mod Failures
mod Tests
