-- ===== src/Bulk/Processing/Counts.antt =====
-- The counters of a batch.
use notifymain_wa.Prelude.{
  ℕ, suc, ◌+◌, ◌≤◌, ◌≡◌, ◌&&◌, List, [], ◌∷◌, length, length-append, arith, Bool-cases, inl, inr,
  if◌then◌else◌,
}
use notifymain_wa.Bulk.Data.{
  BatchStatus, failed, BulkMessage, Batch, Service, is_processing, save, was_sent, was_failed,
}
use notifymain_wa.Bulk.Template.{apply_variables}
use notifymain_wa.Bulk.Sending.{Engine, SendResult, delivered, rejected, send_message}
use notifymain_wa.Bulk.Processing.{
  Script, record_result, process_from, conclude, is_rejected, maybe_cancel, first_of_script,
  rest_of_script, save_due, called,
}

-- The counters of a batch with `left` messages to go.
pub record Accounts (left : ℕ) (b : Batch) : Type 0 where
  pub balance :
      b.progress.sent + b.progress.failed + b.progress.pending + b.progress.cancelled
      ≡ b.progress.total
  pub open_messages : left ≤ b.progress.pending
  pub reported : length b.results ≡ b.progress.sent + b.progress.failed

record_result-Accounts :
    (left : ℕ) (b : Batch) (msg : BulkMessage) (answer : SendResult)
    → Accounts (suc left) b
    → Accounts left (record_result b msg answer)
unfolding record_result
record_result-Accounts left b msg (delivered id) a =
    let n = length-append b.results (was_sent msg.chat_id id ∷ []) in
    let k = a.reported in
    record {
      balance = omega (arith, a.balance, a.open_messages);
      open_messages = omega (arith, a.open_messages);
      reported = omega arith;
    }
record_result-Accounts left b msg (rejected e) a =
    let n = length-append b.results (was_failed msg.chat_id e ∷ []) in
    let k = a.reported in
    record {
      balance = omega (arith, a.balance, a.open_messages);
      open_messages = omega (arith, a.open_messages);
      reported = omega arith;
    }

weaker : (left : ℕ) (b : Batch) → Accounts left b → Accounts 0 b
weaker left b a = record { balance = a.balance; open_messages = omega arith; reported = a.reported }

conclude-Accounts : (b : Batch) (s : Service) → Accounts 0 b → Accounts 0 (conclude b s).0
unfolding conclude
conclude-Accounts b s a = record {
  balance = a.balance;
  open_messages = a.open_messages;
  reported = a.reported;
}

with_status-Accounts :
    (status : BatchStatus) (b : Batch) → Accounts 0 b → Accounts 0 (record b { status = status })
with_status-Accounts status b a = record {
  balance = a.balance;
  open_messages = a.open_messages;
  reported = a.reported;
}

-- If the counters of a batch add up to the number of its messages, at least as many are pending as
-- the loop has still to handle, and there is one result for each that was sent or failed, then
-- wherever the loop ends, and whatever cancellations come, the counters of the batch that it saves
-- last add up and there is one result for each message that was sent or failed.
pub process_from-Accounts :
    (engine : Engine) (script : Script) (i : ℕ) (rest : List BulkMessage) (b : Batch) (s : Service)
    → Accounts (length rest) b
    → Accounts 0 (process_from engine script i rest b s).0
unfolding process_from
process_from-Accounts engine script i [] b s a = conclude-Accounts b s a
process_from-Accounts engine script i (msg ∷ rest) b s a =
    let now = maybe_cancel (first_of_script script).before b s in
    let answer =
      send_message engine (length now.calls) msg.chat_id msg.type
        (apply_variables msg.content msg.variables) in
    let after = maybe_cancel (first_of_script script).during b (called msg now) in
    let recorded = record_result b msg answer in
    let r = record_result-Accounts (length rest) b msg answer a in
    elim (Bool-cases (is_processing b.id now)) [
      | inr e ↦ rw (e, process_from) (conclude-Accounts b now (weaker (suc (length rest)) b a))
      | inl e ↦ elim (Bool-cases (is_rejected answer && b.options.stop_on_error)) [
        | inl stop ↦
            rw (e, stop, process_from)
              (conclude-Accounts (record recorded { status = failed }) after
                (with_status-Accounts failed recorded (weaker (length rest) recorded r)))
        | inr go ↦
            rw (e, go, process_from)
              (process_from-Accounts engine (rest_of_script script) (suc i) rest
                (record recorded { current_index = suc i })
                (if save_due i rest
                  then save (record recorded { current_index = suc i }) after
                  else after)
                (record {
                  balance = r.balance;
                  open_messages = r.open_messages;
                  reported = r.reported;
                }))
      ]
    ]
