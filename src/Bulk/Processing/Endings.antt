-- ===== src/Bulk/Processing/Endings.antt =====
-- How a batch ends.
use notifymain_wa.Prelude.{
  ℕ, ◌<◌, ◌≡◌, ap, ◌∙◌, refl, Bool, true, false, ◌&&◌, some, List, [], ◌∷◌, length, inl, inr, none,
  ◌++◌, map, any, any-found, update_where, Option-cases, Bool-cases, arith, ◌==◌, ==_refl, ltb,
  if◌then◌else◌, find_first,
}
use notifymain_wa.Text.{Str}
use notifymain_wa.Bulk.Data.{
  processing, completed, failed, BulkMessage, MessageResult, Batch, EngineCall, Service,
  is_processing, find_batch, was_sent, was_failed,
}
use notifymain_wa.Bulk.Template.{apply_variables}
use notifymain_wa.Bulk.Sending.{
  Engine, SendResult, delivered, rejected, send_message, cancel_batch, named, is_closed, cancel_row,
}
use notifymain_wa.Bulk.Processing.{
  Script, record_result, process_from, conclude, is_rejected, maybe_cancel, call_of, called,
}

-- The answer of the engine to the next message.
abbrev pub answer_to : Engine → Service → BulkMessage → SendResult
answer_to engine s msg =
    send_message engine (length s.calls) msg.chat_id msg.type
      (apply_variables msg.content msg.variables)

abbrev pub recipient : MessageResult → Str
recipient (was_sent chat_id id) = chat_id
recipient (was_failed chat_id e) = chat_id

record_result-options :
    (b : Batch) (msg : BulkMessage) (answer : SendResult)
    → ((record_result b msg answer).options ≡ b.options) × ((record_result b msg answer).id ≡ b.id)
unfolding record_result
record_result-options b msg (delivered id) = (refl, refl)
record_result-options b msg (rejected e) = (refl, refl)

-- The calls for a list of messages, in their order; none for a type that is not supported.
abbrev pub calls_for : List BulkMessage → List EngineCall
calls_for [] = []
calls_for (msg ∷ msgs) =
    let rest = calls_for msgs in elim (call_of msg) [ none ↦ rest | some call ↦ call ∷ rest ]

called-kept :
    (msg : BulkMessage) (id : ℕ) (s : Service)
    → is_processing id (called msg s) ≡ is_processing id s
unfolding called
called-kept msg id s = elim (Option-cases (call_of msg)) [
  | inl e ↦ rw (called, e)
  | inr (call, e) ↦ rw (called, e)
]

-- What an undisturbed run has done with the messages that were left.
pub record IsThrough (left : List BulkMessage) (b : Batch) (s : Service) (r : Batch × Service)
    : Type 0 where
  pub reported :
      map recipient r.0.results
      ≡ map recipient b.results ++ map (λ (m : BulkMessage). m.chat_id) left
  pub asked : r.1.calls ≡ s.calls ++ calls_for left
  pub ended :
      r.0.status
      ≡ (if ltb 0 r.0.progress.failed && r.0.progress.sent == 0 then failed else completed)

-- A row that is saved is found again.
find_batch-saved :
    (b : Batch) (rows : List Batch)
    → any (λ (r : Batch). r.id == b.id) rows ≡ true
    → find_first
        (λ (r : Batch). r.id == b.id)
        (update_where (λ (r : Batch). r.id == b.id) (λ r. b) rows)
      ≡ some b
find_batch-saved b [] h = cc
find_batch-saved b (r ∷ rows) h = elim (Bool-cases (r.id == b.id)) [
  | inl hit ↦ rw (hit, ==_refl b.id) refl
  | inr miss ↦ rw (miss, miss) (find_batch-saved b rows (rw miss at h))
]

-- A cancellation that finds the batch.
maybe_cancel-seen :
    (b row : Batch) (s : Service)
    → find_first (named b.session_id b.batch_id) s.batches ≡ some row
    → is_closed row.status ≡ false
    → row.id ≡ b.id
    → (is_processing b.id (maybe_cancel true b s) ≡ false)
      × ((maybe_cancel true b s).calls ≡ s.calls)
      × (any (λ (r : Batch). r.id == b.id) (maybe_cancel true b s).batches ≡ true)
unfolding maybe_cancel cancel_batch
maybe_cancel-seen b row s found open_row same =
    let there : any (λ (r : Batch). r.id == row.id) s.batches ≡ true =
      any-found (named b.session_id b.batch_id) (λ (r : Batch). r.id == row.id) row s.batches found
        (==_refl row.id) in
    let again = find_batch-saved (cancel_row row) s.batches there in
    let still =
      any-found (λ (r : Batch). r.id == row.id) (λ (r : Batch). r.id == row.id) (cancel_row row) _
        again (==_refl row.id) in
    rw (found, maybe_cancel) (rw open_row (rw (← same) (rw (==_refl row.id) (refl, refl, still))))

conclude-off :
    (b : Batch) (s : Service)
    → is_processing b.id s ≡ false
    → any (λ (r : Batch). r.id == b.id) s.batches ≡ true
    → ((conclude b s).0.status ≡ b.status)
      × ((conclude b s).1.calls ≡ s.calls)
      × (find_batch b.id (conclude b s).1 ≡ some (conclude b s).0)
unfolding conclude
conclude-off b s off there =
    let ended = record b { status = b.status } in
    rw off (refl, refl, find_batch-saved ended s.batches there)

-- A cancellation that the loop sees is lost: at the end the row of the batch in the table has the
-- status PROCESSING, and the engine was asked nothing. The conditions are that the batch of the loop has
-- that status, as `processBatch` sets it, and that its row is found under its name and is not
-- closed, so that `cancelBatch` accepts.
pub process_from-cancel_lost :
    (engine : Engine) (script : Script) (i : ℕ) (msg : BulkMessage) (rest : List BulkMessage)
    (b row : Batch) (s : Service) (during : Bool)
    → b.status ≡ processing
    → find_first (named b.session_id b.batch_id) s.batches ≡ some row
    → is_closed row.status ≡ false
    → row.id ≡ b.id
    → let r =
        process_from engine
          (record { before = true; during = during } ∷ script)
          i
          (msg ∷ rest)
          b
          s in
      (find_batch b.id r.1 ≡ some r.0) × (r.0.status ≡ processing) × (r.1.calls ≡ s.calls)
unfolding process_from maybe_cancel conclude cancel_batch
process_from-cancel_lost engine script i msg rest b row s during st found open_row same =
    let (off, quiet, there) = maybe_cancel-seen b row s found open_row same in
    let (status, silent, saved) = conclude-off b (maybe_cancel true b s) off there in
    rw (off, process_from) (saved, status ∙ st, silent ∙ quiet)

conclude-completed :
    (b : Batch) (s : Service)
    → is_processing b.id s ≡ true
    → 0 < b.progress.sent
    → (conclude b s).0.status ≡ completed
unfolding conclude
conclude-completed b s on sent = rw on (ground arith)

record_result-sent :
    (b : Batch) (msg : BulkMessage) (answer : SendResult)
    → 0 < b.progress.sent
    → 0 < (record_result b msg answer).progress.sent
unfolding record_result
record_result-sent b msg (delivered id) h = omega arith
record_result-sent b msg (rejected e) h = h

-- A batch that is to stop on errors, whose flag is set and which no one cancels, ends COMPLETED if
-- something was sent before and the next message is rejected.
pub process_from-stop_completed :
    (engine : Engine) (i : ℕ) (msg : BulkMessage) (rest : List BulkMessage) (b : Batch)
    (s : Service)
    → b.options.stop_on_error ≡ true
    → is_processing b.id s ≡ true
    → is_rejected (answer_to engine s msg) ≡ true
    → 0 < b.progress.sent
    → (process_from engine [] i (msg ∷ rest) b s).0.status ≡ completed
unfolding process_from conclude record_result
process_from-stop_completed engine i msg rest b s stop on fails sent =
    let answer = answer_to engine s msg in
    let halt : is_rejected answer && b.options.stop_on_error ≡ true = ground arith in
    rw (on, halt, process_from)
      (conclude-completed (record (record_result b msg answer) { status = failed }) (called msg s)
        (called-kept msg (record_result b msg answer).id s
          ∙ ap (λ id. is_processing id s) (record_result-options b msg answer).1
          ∙ on)
        (record_result-sent b msg answer sent))
