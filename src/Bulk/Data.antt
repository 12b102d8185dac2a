-- ===== src/Bulk/Data.antt =====
-- The batches of src/modules/message/bulk-message.service.ts and
-- src/modules/message/entities/message-batch.entity.ts: a row for each batch, and the map that
-- tells a running loop to go on. Ids are numbers; `script` and the engines are described where
-- they are used.
use notifymain_wa.Prelude.{
  ℕ, Bool, false, Option, List, ◌==◌, find_first, update_where, if◌then◌else◌, or_else,
}
use notifymain_wa.Text.{Str}
use notifymain_wa.Bulk.Template.{Content, Variables}

pub data BatchStatus : Type 0 where
  pending processing completed cancelled failed : BatchStatus

pub record BulkMessage : Type 0 where
  pub chat_id : Str
  pub type : Str
  pub content : Content
  pub variables : Option Variables

pub record Options : Type 0 where
  pub delay_between_messages : ℕ
  pub randomize_delay : Bool
  pub stop_on_error : Bool

pub record Progress : Type 0 where
  pub total : ℕ
  pub sent : ℕ
  pub failed : ℕ
  pub pending : ℕ
  pub cancelled : ℕ

-- A result with the id of the message, or with its error.
pub data MessageResult : Type 0 where
  was_sent : (chat_id message_id : Str) → MessageResult
  was_failed : (chat_id error : Str) → MessageResult

pub record Batch : Type 0 where
  pub id : ℕ
  pub batch_id : Str
  pub session_id : ℕ
  pub status : BatchStatus
  pub messages : List BulkMessage
  pub options : Options
  pub progress : Progress
  pub results : List MessageResult
  pub current_index : ℕ

-- A call of the engine.
pub data EngineCall : Type 0 where
  send_text : (chat_id text : Str) → EngineCall
  send_media : (kind chat_id mimetype content : Str) (caption filename : Option Str) → EngineCall

pub record Service : Type 0 where
  pub batches : List Batch
  pub processing : ℕ → Option Bool  -- processingBatches
  pub calls : List EngineCall  -- what the engine was asked, in order

-- `this.processingBatches.set` and `delete`
abbrev pub set_processing : ℕ → Option Bool → Service → Service
set_processing id flag s = record s {
  processing = λ other. if other == id then flag else s.processing other;
}

-- `!!this.processingBatches.get(id)`
abbrev pub is_processing : ℕ → Service → Bool
is_processing id s = or_else (s.processing id) false

-- `batchRepository.save(batch)`
abbrev pub save : Batch → Service → Service
save b s = record s { batches = update_where (λ (r : Batch). r.id == b.id) (λ r. b) s.batches }

abbrev pub find_batch : ℕ → Service → Option Batch
find_batch id s = find_first (λ (b : Batch). b.id == id) s.batches
