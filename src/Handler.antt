-- ===== src/Handler.antt =====
-- internal/handler: what the handlers share, and a module for each. A handler runs to its end on
-- one request; `permits` and `rank_of` call functions of the RBAC service that return no error.
pub mod Frames
pub mod Audited
pub mod Calls
pub mod Alerts
pub mod Users
pub mod Auth
pub mod Admin
pub mod ApiKeys
pub mod Escalation
pub mod Visibility
pub mod Probation
pub mod Transitions
