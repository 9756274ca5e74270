-- ===== src/Tests.antt =====
-- Runs of the theorems on concrete data.
mod Data
mod Alerts
mod Accounts
mod Trail
mod Limits
mod Keys
mod Desk
mod Handlers
mod Routes
mod System
mod Numbers
