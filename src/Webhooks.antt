-- ===== src/Webhooks.antt =====
-- src/modules/webhook: what the engine tells the URLs that are registered for the events of a
-- session.
pub mod Data
pub mod Keys
pub mod Delivery
pub mod Dispatching
pub mod Rows
pub mod Queued
