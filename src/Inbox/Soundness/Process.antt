-- ===== src/Inbox/Soundness/Process.antt =====
-- Every event of the engine keeps the store sound.
use notifymain_wa.Prelude.{ℕ, List}
use notifymain_wa.Campaigns.Data.{Store}
use notifymain_wa.Campaigns.Actions.{World}
use notifymain_wa.Campaigns.Requests.Consistency.{IsGenerator}
use notifymain_wa.Inbox.Chats.{Turn}
use notifymain_wa.Inbox.Messages.{SaveMedia}
use notifymain_wa.Inbox.{
  EngineEvent, session_connected, session_disconnected, session_sync_start, session_chats_synced,
  message_received, message_outgoing, message_decrypt_failed, message_ack, message_reaction,
  unknown, process,
}
use notifymain_wa.Inbox.Soundness.{IsSound}
use notifymain_wa.Inbox.Soundness.Chats.{handle_session_chats_synced-IsSound}
use notifymain_wa.Inbox.Soundness.Messages.{
  handle_message_received-IsSound, handle_message_outgoing-IsSound,
  handle_message_decrypt_failed-IsSound,
}
use notifymain_wa.Inbox.Soundness.Acks.{
  handle_message_ack-IsSound, handle_message_reaction-IsSound, handle_session_connected-IsSound,
  handle_session_disconnected-IsSound, handle_session_sync_start-IsSound,
}

-- Whatever event of the engine is processed, and in whatever order the chats of a batch come
-- further and fail, the conversations keep distinct ids and at most one
-- row for a phone number of a tenant's session, the ids still to come stay unused, and at most
-- one message has a given external id that is not empty: if this held before, if the database
-- never generates an id twice, and if what runs between two attempts at an acknowledgement
-- keeps it.
pub process-IsSound :
    (w : World) (save : SaveMedia) (others : ℕ → Store → Store) (turns : ℕ → List Turn)
    (e : EngineEvent) (s : Store)
    → IsGenerator w
    → ((n : ℕ) (s : Store) → IsSound w s → IsSound w (others n s))
    → IsSound w s
    → IsSound w (process w save others turns e s)
unfolding process
process-IsSound w save others turns (session_connected id at phone) s g keeps v =
    handle_session_connected-IsSound w s v id at phone
process-IsSound w save others turns (session_disconnected id at) s g keeps v =
    handle_session_disconnected-IsSound w s v id at
process-IsSound w save others turns (session_sync_start id) s g keeps v =
    handle_session_sync_start-IsSound w s v id
process-IsSound w save others turns (session_chats_synced id chats) s g keeps v =
    handle_session_chats_synced-IsSound w turns id chats s g v
process-IsSound w save others turns (message_received e) s g keeps v =
    handle_message_received-IsSound w save g s v e
process-IsSound w save others turns (message_outgoing e) s g keeps v =
    handle_message_outgoing-IsSound w save g s v e
process-IsSound w save others turns (message_decrypt_failed e) s g keeps v =
    handle_message_decrypt_failed-IsSound w save g s v e
process-IsSound w save others turns (message_ack ack id at) s g keeps v =
    handle_message_ack-IsSound w others ack id at s keeps v
process-IsSound w save others turns (message_reaction target sender emoji) s g keeps v =
    handle_message_reaction-IsSound w target sender emoji s v
process-IsSound w save others turns (unknown name) s g keeps v = v
