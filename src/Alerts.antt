-- ===== src/Alerts.antt =====
-- services/alerts/marga_alerts: the alerts that are shown to road users.
pub mod Alert
pub mod Lifecycle
pub mod Store
pub mod Service
mod Tests
