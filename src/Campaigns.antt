-- ===== src/Campaigns.antt =====
-- The campaigns of the backend: backend/src/campaigns/.
pub mod Data
pub mod Progress
pub mod Actions
pub mod Recipients
pub mod Pacing
pub mod Links
pub mod Lookup
pub mod Creation
pub mod Lifecycle
pub mod Audience
pub mod Requests
pub mod Conversations
pub mod Delivery
pub mod Processor
