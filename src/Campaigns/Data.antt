-- ===== src/Campaigns/Data.antt =====
-- The tables of backend/prisma/schema.prisma that campaigns read and write, and what stands
-- around them: the queue, the audit log, the socket events and the requests sent to the engine.
-- An id is a number, since the code only compares ids. A time is in milliseconds.
use notifymain_wa.Prelude.{ℕ, Bool, Option, List, ◌==◌}
use notifymain_wa.Text.{Str}

pub data CampaignStatus : Type 0 where
  draft scheduled running paused completed cancelled : CampaignStatus

pub data ContactStatus : Type 0 where
  pending sent delivered read failed opted_out : ContactStatus

pub data SessionStatus : Type 0 where
  initializing qr_pending connected disconnected error : SessionStatus

pub data MessageStatus : Type 0 where
  pending sent delivered read failed : MessageStatus

pub data MessageType : Type 0 where
  text image video audio document location contact_card template : MessageType

pub data MessageDirection : Type 0 where
  inbound outbound : MessageDirection

pub data ConversationStatus : Type 0 where
  opened assigned resolved snoozed : ConversationStatus

pub record Campaign : Type 0 where
  pub id : ℕ
  pub tenant_id : ℕ
  pub session_id : Option ℕ
  pub created_by_id : ℕ
  pub name : Str
  pub status : CampaignStatus
  pub message_template : Str
  pub media_url : Option Str
  pub media_type : Option Str
  pub link_url : Option Str
  pub scheduled_at : Option ℕ
  pub started_at : Option ℕ
  pub completed_at : Option ℕ
  pub total_contacts : ℕ
  pub rate_limit_per_min : ℕ

pub record CampaignContact : Type 0 where
  pub id : ℕ
  pub campaign_id : ℕ
  pub contact_id : Option ℕ
  pub tenant_id : ℕ
  pub phone_number : Str
  pub status : ContactStatus
  pub message_id : Option ℕ
  pub retry_count : ℕ
  pub sent_at : Option ℕ
  pub delivered_at : Option ℕ
  pub read_at : Option ℕ
  pub failed_at : Option ℕ
  pub error_message : Option Str

pub record Contact : Type 0 where
  pub id : ℕ
  pub tenant_id : ℕ
  pub phone_number : Str
  pub name : Str
  pub whatsapp_name : Option Str
  pub email : Option Str
  pub notes : Option Str
  pub is_blocked : Bool
  pub is_opted_out : Bool
  pub deleted_at : Option ℕ
  pub tags : List Str

pub record Session : Type 0 where
  pub id : ℕ
  pub tenant_id : ℕ
  pub openwa_id : Str
  pub phone_number : Option Str
  pub engine_instance_id : Option ℕ
  pub status : SessionStatus
  pub last_seen_at : Option ℕ

pub record Conversation : Type 0 where
  pub id : ℕ
  pub tenant_id : ℕ
  pub session_id : Option ℕ
  pub contact_id : Option ℕ
  pub contact_name : Option Str
  pub phone_number : Str
  pub status : ConversationStatus
  pub unread_count : ℕ
  pub last_message_at : Option ℕ
  pub last_message_text : Option Str

pub record Message : Type 0 where
  pub id : ℕ
  pub tenant_id : ℕ
  pub session_id : Option ℕ
  pub conversation_id : Option ℕ
  pub campaign_id : Option ℕ
  pub direction : MessageDirection
  pub type : MessageType
  pub from_number : Str
  pub to_number : Str
  pub body : Str
  pub media_url : Option Str
  pub media_type : Option Str
  pub status : MessageStatus
  pub external_id : Option Str
  pub reactions : List (Str × List Str)  -- the senders of each emoji
  pub sent_at : Option ℕ
  pub delivered_at : Option ℕ
  pub read_at : Option ℕ
  pub failed_at : Option ℕ
  pub error_message : Option Str

-- A job `process-campaign`, with its delay where it has one.
pub record Job : Type 0 where
  pub campaign_id : ℕ
  pub tenant_id : ℕ
  pub delay : Option ℕ

pub data AuditAction : Type 0 where
  campaign_start campaign_stop : AuditAction

pub record AuditEntry : Type 0 where
  pub tenant_id : ℕ
  pub user_id : ℕ
  pub action : AuditAction
  pub entity_id : ℕ

pub record CampaignProgress : Type 0 where
  pub sent_count : ℕ
  pub delivered_count : ℕ
  pub read_count : ℕ
  pub failed_count : ℕ

-- What `GatewayService` is told to emit.
pub data Event : Type 0 where
  message_received :
      (tenant_id message_id conversation_id : ℕ) → (from body : Str) → MessageType → Event
  campaign_progress :
      (tenant_id campaign_id : ℕ) → CampaignProgress → (total : ℕ) → CampaignStatus → Event
  session_status : (tenant_id : ℕ) → (openwa_id : Str) → SessionStatus → Event
  session_syncing : (tenant_id : ℕ) → (openwa_id : Str) → Event
  session_sync_complete : (tenant_id : ℕ) → (openwa_id : Str) → (count : ℕ) → Event
  message_outgoing_synced :
      (tenant_id message_id conversation_id : ℕ) → (to body : Str) → MessageType → Event
  message_ack : (tenant_id message_id : ℕ) → (external_id : Str) → MessageStatus → Event
  message_reaction :
      (tenant_id message_id conversation_id : ℕ) → (reactions : List (Str × List Str)) → Event
  message_decrypt_failed :
      (tenant_id : ℕ) → (openwa_id from : Str) → (conversation_id : Option ℕ) → Event

-- A `POST` to `/api/messages/send` of an engine.
pub record Post : Type 0 where
  pub engine : Str
  pub session : Str
  pub to : Str
  pub type : MessageType
  pub text : Str
  pub media_url : Option Str
  pub message_id : ℕ

pub record Store : Type 0 where
  pub campaigns : List Campaign
  pub campaign_contacts : List CampaignContact
  pub contacts : List Contact
  pub sessions : List Session
  pub conversations : List Conversation
  pub messages : List Message
  pub jobs : List Job
  pub audit : List AuditEntry
  pub events : List Event
  pub posts : List Post
  pub waits : List ℕ
  pub draws : ℕ  -- how often the world was asked

abbrev contact_status_code : ContactStatus → ℕ
contact_status_code pending = 0
contact_status_code sent = 1
contact_status_code delivered = 2
contact_status_code read = 3
contact_status_code failed = 4
contact_status_code opted_out = 5

-- `===` on two statuses
abbrev pub status_eq : ContactStatus → ContactStatus → Bool
status_eq a b = contact_status_code a == contact_status_code b
