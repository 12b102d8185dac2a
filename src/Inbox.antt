-- ===== src/Inbox.antt =====
-- backend/src/webhooks/webhooks.processor.ts: the events that the engine reports, and what the
-- backend makes of them. What is no text or no number where the
-- source tests for one is absent. A `SaveMedia` writes an uploaded file.
pub mod Addresses
pub mod Threads
pub mod Links
pub mod Chats
pub mod Messages
pub mod Reactions
pub mod Acks
pub mod Soundness
use notifymain_wa.Prelude.{ℕ, Option, List}
use notifymain_wa.Text.{Str}
use notifymain_wa.Campaigns.Data.{Store}
use notifymain_wa.Campaigns.Actions.{World}
use notifymain_wa.Inbox.Links.{
  handle_session_connected, handle_session_disconnected, handle_session_sync_start,
}
use notifymain_wa.Inbox.Chats.{Chat, Turn, handle_session_chats_synced}
use notifymain_wa.Inbox.Messages.{
  MessageEvent, SaveMedia, handle_message_received, handle_message_outgoing,
  handle_message_decrypt_failed,
}
use notifymain_wa.Inbox.Reactions.{handle_message_reaction}
use notifymain_wa.Inbox.Acks.{Ack, handle_message_ack}

-- A job of the queue `webhook-events`: its name and the data that its handler reads.
pub data EngineEvent : Type 0 where
  session_connected : Str → (at : ℕ) → (phone : Option Str) → EngineEvent
  session_disconnected : Str → (at : ℕ) → EngineEvent
  session_sync_start : Str → EngineEvent
  session_chats_synced : Str → List Chat → EngineEvent
  message_received message_outgoing message_decrypt_failed : MessageEvent → EngineEvent
  message_ack : Option Ack → Option Str → (at : ℕ) → EngineEvent
  message_reaction : (target sender emoji : Option Str) → EngineEvent
  unknown : Str → EngineEvent

unfoldable pub process :
    World → SaveMedia → (ℕ → Store → Store) → (ℕ → List Turn) → EngineEvent → Store → Store
unfolding handle_session_connected handle_session_disconnected handle_session_sync_start
    handle_session_chats_synced handle_message_received handle_message_outgoing handle_message_ack
    handle_message_reaction handle_message_decrypt_failed
process w save others turns (session_connected id at phone) s =
    handle_session_connected id at phone s
process w save others turns (session_disconnected id at) s = handle_session_disconnected id at s
process w save others turns (session_sync_start id) s = handle_session_sync_start id s
process w save others turns (session_chats_synced id chats) s =
    handle_session_chats_synced w turns id chats s
process w save others turns (message_received e) s = handle_message_received w save e s
process w save others turns (message_outgoing e) s = handle_message_outgoing w save e s
process w save others turns (message_ack ack id at) s = handle_message_ack w others ack id at s
process w save others turns (message_reaction target sender emoji) s =
    handle_message_reaction target sender emoji s
process w save others turns (message_decrypt_failed e) s = handle_message_decrypt_failed e s
process w save others turns (unknown name) s = s
