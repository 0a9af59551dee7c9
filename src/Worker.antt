-- ===== src/Worker.antt =====
-- crates/server/src/worker.rs with the files of worker/ that it includes: the processing of one
-- message, as actions on an outside world that record the calls they make.
pub mod Action
pub mod Services
pub mod Events
pub mod Steps
pub mod History
pub mod Outbound
pub mod Handoff
pub mod Classify
pub mod Decide
pub mod Process
pub mod Plans
pub mod Polling
pub mod Protocol
pub mod Effects
