-- ===== src/Model.antt =====
-- internal/model: the entities of the platform with their methods, and its requests. Times and
-- durations are numbers of seconds; an optional pointer is an `Option`.
pub mod User
pub mod Session
pub mod Role
pub mod Alert
pub mod Audit
pub mod ApiKey
