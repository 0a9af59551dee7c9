-- ===== src/Tests.antt =====
-- Sample values, and the theorems at concrete inputs.
pub mod Samples
mod Workers
mod Stores
pub mod Mails
mod Configs
mod Portal
mod Runs
