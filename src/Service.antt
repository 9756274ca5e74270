-- ===== src/Service.antt =====
-- internal/service: the operations of the platform over the repositories. Each module has the
-- operations of one service; the proofs are in the modules below it.
pub mod Audit
pub mod Alerts
pub mod Rbac
pub mod Auth
pub mod ApiKeys
pub mod Users
pub mod Frames
