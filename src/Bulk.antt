-- ===== src/Bulk.antt =====
-- Bulk messages of the engine: src/modules/message/bulk-message.service.ts.
pub mod Template
pub mod Data
pub mod Sending
pub mod Processing
