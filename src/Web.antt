-- ===== src/Web.antt =====
-- The web server of crates/server/src/web.rs, as far as it hands threads off.
pub mod Handoff
