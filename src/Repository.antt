-- ===== src/Repository.antt =====
-- internal/repository: each SQL statement as its effect on the tables of `World`. UNIQUE and
-- REFERENCES constraints are those of migrations/001_schema.sql; other refusals of the database
-- (a text too long, a lost connection) are entries of `faults`.
pub mod Frames
pub mod Paging
pub mod Users
pub mod Sessions
pub mod Roles
pub mod Alerts
pub mod Audits
pub mod ApiKeys
pub mod Reads
