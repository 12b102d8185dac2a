-- ===== src/Bulk/Sending.antt =====
-- `sendMessage`, `createBatch` and `cancelBatch` of
-- src/modules/message/bulk-message.service.ts.
use notifymain_wa.Prelude.{
  ℕ, Bool, true, false, not, Option, none, some, List, [], ◌∷◌, ◌++◌, ◌==◌, ◌&&◌, find_first,
  if◌then◌else◌, length, or_else, is_empty, is_some,
}
use notifymain_wa.Text.{Str, codes, str_eq}
use notifymain_wa.Bulk.Template.{Content, Media}
use notifymain_wa.Bulk.Data.{
  BatchStatus, pending, completed, cancelled, BulkMessage, Batch, EngineCall, send_text, send_media,
  Service, set_processing, save,
}

-- `a || b` on optional texts.
abbrev pub text_or : Option Str → Str → Str
text_or none other = other
text_or (some s) other = if is_empty s then other else s

pub data SendResult : Type 0 where
  delivered : (message_id : Str) → SendResult
  rejected : (error : Str) → SendResult

abbrev field : (Media → Option Str) → Option Media → Option Str
field f none = none
field f (some m) = f m

abbrev media_call : (kind chat_id default : Str) → Option Media → Option Str → Bool → EngineCall
media_call kind chat_id default m caption named =
    send_media kind chat_id (text_or (field (λ m. m.mimetype) m) default)
      (text_or (field (λ m. m.url) m) (text_or (field (λ m. m.base64) m) [])) caption
      (if named then field (λ m. m.filename) m else none)

-- The switch over the type; `none` is the unsupported one.
unfoldable pub engine_call : Str → Str → Content → Option EngineCall
engine_call chat_id type c =
    if str_eq type (codes "text")
    then some (send_text chat_id (text_or c.text []))
    else if str_eq type (codes "image")
    then some (media_call type chat_id (codes "image/jpeg") c.image c.caption false)
    else if str_eq type (codes "video")
    then some (media_call type chat_id (codes "video/mp4") c.video c.caption false)
    else if str_eq type (codes "audio")
    then some (media_call type chat_id (codes "audio/mpeg") c.audio none false)
    else if str_eq type (codes "document")
    then some (media_call type chat_id (codes "application/octet-stream") c.document c.caption true)
    else none

-- The engine answers the n-th call.
abbrev pub Engine : Type 0
Engine = ℕ → EngineCall → SendResult

unfoldable pub send_message : Engine → ℕ → Str → Str → Content → SendResult
unfolding engine_call
send_message engine draw chat_id type content = elim (engine_call chat_id type content) [
  | none ↦ rejected (codes "Error: Unsupported message type: " ++ type)
  | some call ↦ engine draw call
]

pub data Failure : Type 0 where
  session_not_active batch_exists batch_not_found batch_closed : Failure

pub data Outcome : Type 0 where
  done : Batch → Outcome
  refused : Failure → Outcome

pub record SendBulkMessageDto : Type 0 where
  pub batch_id : Option Str
  pub messages : List BulkMessage
  pub delay_between_messages : Option ℕ
  pub randomize_delay : Option Bool
  pub stop_on_error : Option Bool

abbrev pub new_batch : ℕ → Str → ℕ → SendBulkMessageDto → Batch
new_batch id batch_id session_id dto = record {
  id = id;
  batch_id = batch_id;
  session_id = session_id;
  status = pending;
  messages = dto.messages;
  options = record {
    delay_between_messages = or_else dto.delay_between_messages 3000;
    randomize_delay = or_else dto.randomize_delay true;
    stop_on_error = or_else dto.stop_on_error false;
  };
  progress = record {
    total = length dto.messages;
    sent = 0;
    failed = 0;
    pending = length dto.messages;
    cancelled = 0;
  };
  results = [];
  current_index = 0;
}

-- `createBatch`, up to the start of the processing. The database gives the row its id, and
-- `generated` is the random batch id; `active` tells whether the session has an engine.
unfoldable pub create_batch :
    (id : ℕ) (generated : Str) (active : Bool) (session_id : ℕ)
    → SendBulkMessageDto
    → Service
    → Outcome × Service
create_batch id generated active session_id dto s =
    let batch_id = text_or dto.batch_id (codes "batch_" ++ generated) in
    let b = new_batch id batch_id session_id dto in
    if not active
    then (refused session_not_active, s)
    else if is_some (find_first (λ (b : Batch). str_eq b.batch_id batch_id) s.batches)
    then (refused batch_exists, s)
    else (done b, record s { batches = s.batches ++ b ∷ [] })

abbrev pub is_closed : BatchStatus → Bool
is_closed completed = true
is_closed cancelled = true
is_closed _ = false

abbrev pub cancel_row : Batch → Batch
cancel_row b = record b {
  status = cancelled;
  progress = record b.progress { cancelled = b.progress.pending; pending = 0 };
}

abbrev pub named : ℕ → Str → Batch → Bool
named session_id batch_id b = str_eq b.batch_id batch_id && (b.session_id == session_id)

unfoldable pub cancel_batch : ℕ → Str → Service → Outcome × Service
cancel_batch session_id batch_id s = elim (find_first (named session_id batch_id) s.batches) [
  | none ↦ (refused batch_not_found, s)
  | some b ↦
      if is_closed b.status
      then (refused batch_closed, s)
      else (done (cancel_row b), save (cancel_row b) (set_processing b.id (some false) s))
]
