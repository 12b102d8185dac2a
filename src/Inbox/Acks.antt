-- ===== src/Inbox/Acks.antt =====
-- `handleMessageAck` of backend/src/webhooks/webhooks.processor.ts. Between two attempts other
-- jobs run; `others` tells what they do to the store while the n-th pause lasts.
pub mod Arrival
use notifymain_wa.Prelude.{
  ℕ, suc, ◌+◌, Bool, true, false, ◌&&◌, Option, none, some, List, [], ◌∷◌, ◌++◌, ◌==◌, is_some,
  is_empty, if◌then◌else◌, find_first, update_where, any,
}
use notifymain_wa.Text.{Str, str_eq}
use notifymain_wa.Campaigns.Data.{
  MessageStatus, ContactStatus, Message, CampaignContact, Event, message_ack, Store,
}
use notifymain_wa.Campaigns.Actions.{World}
use notifymain_wa.Campaigns.Delivery.{emit_progress}
use notifymain_wa.Campaigns.Lookup.{is_campaign}
use notifymain_wa.Inbox.Links.{emit}

-- The acknowledgements of `ackMap`: 1, 2, 3 and -1.
pub data Ack : Type 0 where
  server device seen error : Ack

abbrev pub message_status : Ack → MessageStatus
message_status server = MessageStatus.sent
message_status device = MessageStatus.delivered
message_status seen = MessageStatus.read
message_status error = MessageStatus.failed

abbrev pub contact_status : Ack → ContactStatus
contact_status server = ContactStatus.sent
contact_status device = ContactStatus.delivered
contact_status seen = ContactStatus.read
contact_status error = ContactStatus.failed

-- `{ status: ack.status, [ack.field]: new Date(data.timestamp) }`
abbrev pub stamp_message : Ack → ℕ → Message → Message
stamp_message server at m = record m { status = MessageStatus.sent; sent_at = some at }
stamp_message device at m = record m { status = MessageStatus.delivered; delivered_at = some at }
stamp_message seen at m = record m { status = MessageStatus.read; read_at = some at }
stamp_message error at m = record m { status = MessageStatus.failed; failed_at = some at }

abbrev pub stamp_contact : Ack → ℕ → CampaignContact → CampaignContact
stamp_contact server at c = record c { status = ContactStatus.sent; sent_at = some at }
stamp_contact device at c = record c { status = ContactStatus.delivered; delivered_at = some at }
stamp_contact seen at c = record c { status = ContactStatus.read; read_at = some at }
stamp_contact error at c = record c { status = ContactStatus.failed; failed_at = some at }

abbrev pub has_external_id : Str → Message → Bool
has_external_id id m = elim m.external_id [ none ↦ false | some other ↦ str_eq other id ]

abbrev pub stamp_messages : Str → Ack → ℕ → Store → Store
stamp_messages id ack at s = record s {
  messages = update_where (has_external_id id) (stamp_message ack at) s.messages;
}

abbrev pub retry_delays_ms : List ℕ
retry_delays_ms = 150 ∷ 300 ∷ 600 ∷ 1000 ∷ []

-- The attempts: whether a message was written in the end, and the store then.
unfoldable pub try_ack : Str → Ack → ℕ → (ℕ → Store → Store) → List ℕ → Store → Bool × Store
try_ack id ack at others [] s = (any (has_external_id id) s.messages, stamp_messages id ack at s)
try_ack id ack at others (delay ∷ delays) s = elim (any (has_external_id id) s.messages) [
  | true ↦ (true, stamp_messages id ack at s)
  | false ↦
      try_ack id ack at others delays (others delay (record s { waits = s.waits ++ delay ∷ [] }))
]

abbrev pub is_recipient : ℕ → ℕ → CampaignContact → Bool
is_recipient campaign_id message_id c =
    (c.campaign_id == campaign_id)
    && elim c.message_id [ none ↦ false | some other ↦ other == message_id ]

abbrev pub mark_recipients : ℕ → ℕ → Ack → ℕ → Store → Store
mark_recipients campaign_id message_id ack at s = record s {
  campaign_contacts =
      update_where (is_recipient campaign_id message_id) (stamp_contact ack at) s.campaign_contacts;
}

-- The recipient of a campaign's message, and the progress of the campaign.
unfoldable pub ack_campaign : World → Ack → ℕ → Message → Store → Store
unfolding emit_progress
ack_campaign w ack at m s = elim m.campaign_id [
  | none ↦ s
  | some campaign_id ↦
      let marked = mark_recipients campaign_id m.id ack at s in
      elim (find_first (is_campaign campaign_id) s.campaigns) [
        | none ↦ marked
        | some c ↦ emit_progress w c.tenant_id c.id marked
      ]
]

unfoldable pub ack_found : World → Str → Ack → ℕ → Store → Store
unfolding ack_campaign
ack_found w id ack at s = elim (find_first (has_external_id id) s.messages) [
  | none ↦ s
  | some m ↦ ack_campaign w ack at m (emit (message_ack m.tenant_id m.id id (message_status ack)) s)
]

-- An unknown number of the engine, or an event without an id, is ignored.
unfoldable pub handle_message_ack :
    World → (ℕ → Store → Store) → Option Ack → Option Str → (at : ℕ) → Store → Store
unfolding try_ack ack_found
handle_message_ack w others none id at s = s
handle_message_ack w others (some ack) none at s = s
handle_message_ack w others (some ack) (some id) at s =
    if is_empty id
    then s
    else (let (found, s') = try_ack id ack at others retry_delays_ms s in
        if found then ack_found w id ack at s' else s')
