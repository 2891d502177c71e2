-- ===== src/Engine.antt =====
-- backend/internal/engine: the alert engine, from a metric to an alert and its notifications.
pub mod Types
pub mod Conditions
pub mod Suppression
pub mod Store
pub mod Effects
pub mod Firing
pub mod Alerts
pub mod Rules
pub mod Log
pub mod System
pub mod Opening
pub mod Silent
pub mod Snapshots
pub mod RuleCache
pub mod Escalation
pub mod Contacts
pub mod Notifications
mod Examples
