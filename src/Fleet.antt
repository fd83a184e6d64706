-- ===== src/Fleet.antt =====
-- internal/fleet: running many targets.
pub mod Params
pub mod RunOne
pub mod Execute
