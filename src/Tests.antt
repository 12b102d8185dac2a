-- ===== src/Tests.antt =====
-- Runs of the model at concrete inputs, and the theorems applied there.
mod PhoneTests
mod Sample
mod CampaignTests
mod AudienceTests
mod TextTests
mod HookTests
mod GuardTests
mod BulkTests
mod InboxTests
mod EngineTests
mod KeyTests
mod WebhookTests
mod ContactTests
mod TeamTests
