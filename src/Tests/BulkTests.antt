-- ===== src/Tests/BulkTests.antt =====
-- The theorems on bulk batches, at a batch of one message.
use notifymain_wa.Prelude.{
  ℕ, ◌+◌, ◌≡◌, refl, Bool, true, false, none, some, [], ◌∷◌, arith, ◌==◌, if◌then◌else◌,
}
use notifymain_wa.Text.{codes, str_eq}
use notifymain_wa.Bulk.Data.{processing, completed, BulkMessage, Batch, Service, find_batch}
use notifymain_wa.Bulk.Sending.{Engine, delivered, rejected, send_message, engine_call}
use notifymain_wa.Bulk.Processing.{process_from, Script, is_rejected}
use notifymain_wa.Bulk.Processing.Counts.{Accounts, process_from-Accounts}
use notifymain_wa.Bulk.Processing.Endings.{
  process_from-cancel_lost, process_from-stop_completed, answer_to,
}

abbrev message : BulkMessage
message = record {
  chat_id = codes "a@c.us";
  type = codes "text";
  content = record {
    text = some (codes "Hi");
    caption = none;
    image = none;
    video = none;
    audio = none;
    document = none;
  };
  variables = none;
}

abbrev batch : Bool → ℕ → Batch
batch stop already_sent = record {
  id = 1;
  batch_id = codes "b";
  session_id = 2;
  status = processing;
  messages = message ∷ [];
  options = record { delay_between_messages = 3000; randomize_delay = false; stop_on_error = stop };
  progress = record {
    total = 1 + already_sent;
    sent = already_sent;
    failed = 0;
    pending = 1;
    cancelled = 0;
  };
  results = [];
  current_index = 0;
}

abbrev service : Service
service = record {
  batches = batch false 0 ∷ [];
  processing = λ id. if id == 1 then some true else none;
  calls = [];
}

abbrev working : Engine
working n call = delivered (codes "m")

abbrev broken : Engine
broken n call = rejected (codes "Error")

abbrev cancelled_later : Script
cancelled_later = record { before = false; during = true } ∷ []

process_from-Accounts_example :
    Accounts 0 (process_from working cancelled_later 0 (message ∷ []) (batch false 0) service).0
process_from-Accounts_example =
    process_from-Accounts working cancelled_later 0 (message ∷ []) (batch false 0) service
      (record { balance = refl; open_messages = omega arith; reported = refl })

process_from-cancel_lost_example :
    let r =
      process_from working
        (record { before = true; during = false } ∷ [])
        0
        (message ∷ [])
        (batch false 0)
        service in
    (find_batch 1 r.1 ≡ some r.0) × (r.0.status ≡ processing) × (r.1.calls ≡ [])
unfolding str_eq
process_from-cancel_lost_example =
    process_from-cancel_lost working [] 0 message [] (batch false 0) (batch false 0) service false
      refl refl refl refl

text_fails : is_rejected (answer_to broken service message) ≡ true
unfolding send_message engine_call str_eq
text_fails = refl

process_from-stop_completed_example :
    (process_from broken [] 0 (message ∷ []) (batch true 1) service).0.status ≡ completed
process_from-stop_completed_example =
    process_from-stop_completed broken 0 message [] (batch true 1) service refl refl text_fails
      (omega arith)
