-- ===== src/Trust.antt =====
-- services/trust/marga_trust: what a signed message must pass before a service reads it.
pub mod Replay
pub mod Plausibility
pub mod RateLimiter
pub mod Credential
pub mod Validator
mod Tests
