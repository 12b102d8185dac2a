-- ===== src/Engine.antt =====
-- The sessions of the engine: src/modules/session/session.service.ts.
pub mod Data
pub mod Reconnect
pub mod Sessions
pub mod Phases
pub mod Refinement
pub mod Timers
pub mod Disconnects
