-- ===== src/Bulk/Processing.antt =====
-- `processBatch` of src/modules/message/bulk-message.service.ts. While it waits, a user may
-- cancel; a script tells for each round whether that happens before the look at the flag, and
-- whether it happens while the message is sent.
pub mod Counts
pub mod Endings
use notifymain_wa.Prelude.{
  ℕ, suc, ◌+◌, ◌-◌, ◌*◌, ◌%◌, Bool, true, false, not, Option, none, some, List, [], ◌∷◌, ◌++◌, ◌==◌,
  ◌&&◌, ◌||◌, ltb, if◌then◌else◌, length, drop, is_empty,
}
use notifymain_wa.Text.{Str, codes}
use notifymain_wa.Bulk.Template.{Content, apply_variables}
use notifymain_wa.Bulk.Data.{
  BatchStatus, pending, processing, completed, cancelled, failed, BulkMessage, MessageResult,
  was_sent, was_failed, Options, Progress, Batch, EngineCall, Service, set_processing,
  is_processing, save, find_batch,
}
use notifymain_wa.Bulk.Sending.{
  Engine, SendResult, delivered, rejected, engine_call, send_message, cancel_batch,
}

pub record Interrupt : Type 0 where
  pub before : Bool
  pub during : Bool

abbrev pub Script : Type 0
Script = List Interrupt

abbrev pub calm : Interrupt
calm = record { before = false; during = false }

abbrev pub first_of_script : Script → Interrupt
first_of_script [] = calm
first_of_script (i ∷ script) = i

abbrev pub rest_of_script : Script → Script
rest_of_script [] = []
rest_of_script (i ∷ script) = script

-- A `cancelBatch` for this batch, if one comes.
unfoldable pub maybe_cancel : Bool → Batch → Service → Service
maybe_cancel false b s = s
maybe_cancel true b s = (cancel_batch b.session_id b.batch_id s).1

-- What the engine is asked for a message: nothing where the type is not supported.
unfoldable pub call_of : BulkMessage → Option EngineCall
unfolding engine_call
call_of msg = engine_call msg.chat_id msg.type (apply_variables msg.content msg.variables)

unfoldable pub called : BulkMessage → Service → Service
unfolding call_of
called msg s = elim (call_of msg) [
  | none ↦ s
  | some call ↦ record s { calls = s.calls ++ call ∷ [] }
]

-- One message: the result, and the batch with its progress.
unfoldable pub record_result : Batch → BulkMessage → SendResult → Batch
record_result b msg (delivered id) = record b {
  progress = record b.progress { sent = suc b.progress.sent; pending = b.progress.pending - 1 };
  results = b.results ++ was_sent msg.chat_id id ∷ [];
}
record_result b msg (rejected e) = record b {
  progress = record b.progress { failed = suc b.progress.failed; pending = b.progress.pending - 1 };
  results = b.results ++ was_failed msg.chat_id e ∷ [];
}

abbrev pub is_rejected : SendResult → Bool
is_rejected (delivered id) = false
is_rejected (rejected e) = true

-- Every tenth round and the last one save the batch.
abbrev pub save_due : ℕ → List BulkMessage → Bool
save_due i rest = i % 10 == 0 || is_empty rest

-- The end: the status is written only if the flag still stands.
unfoldable pub conclude : Batch → Service → Batch × Service
conclude b s =
    let ended = record b {
      status =
          if is_processing b.id s
          then if ltb 0 b.progress.failed && b.progress.sent == 0 then failed else completed
          else b.status;
    } in
    (ended, set_processing b.id none (save ended s))

-- The loop from message i on, and the end.
unfoldable pub process_from :
    Engine → Script → ℕ → List BulkMessage → Batch → Service → Batch × Service
unfolding maybe_cancel record_result conclude called
process_from engine script i [] b s = conclude b s
process_from engine script i (msg ∷ rest) b s =
    let now = maybe_cancel (first_of_script script).before b s in
    elim (is_processing b.id now) [
      | false ↦ conclude b now
      | true ↦
          let answer =
            send_message engine (length now.calls) msg.chat_id msg.type
              (apply_variables msg.content msg.variables) in
          let after = maybe_cancel (first_of_script script).during b (called msg now) in
          let recorded = record_result b msg answer in
          let next = record recorded { current_index = suc i } in
          let saved = if save_due i rest then save next after else after in
          elim (is_rejected answer && b.options.stop_on_error) [
            | true ↦ conclude (record recorded { status = failed }) after
            | false ↦ process_from engine (rest_of_script script) (suc i) rest next saved
          ]
    ]

-- The whole of it; `engine` is missing where the session has none.
unfoldable pub process_batch : Option Engine → Script → ℕ → Service → Service
unfolding process_from
process_batch engine script id s = elim (find_batch id s) [
  | none ↦ s
  | some b ↦
      let started = record b { status = processing } in
      let begun = save started (set_processing b.id (some true) s) in
      elim engine [
        | none ↦ save (record started { status = failed }) begun
        | some e ↦
            (process_from e script started.current_index
              (drop started.current_index started.messages) started begun).1
      ]
]
