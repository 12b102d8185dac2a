-- ===== src/Webhooks/Queued.antt =====
-- src/modules/queue/processors/webhook.processor.ts: one attempt at a job of the queue. The queue
-- counts the attempts made before.
use notifymain_wa.Prelude.{
  ℕ, suc, ◌+◌, Bool, true, false, some, ◌==◌, if◌then◌else◌, leb, update_where,
}
use notifymain_wa.Text.{codes}
use notifymain_wa.Webhooks.Data.{
  Webhook, Request, WebhookJob, webhook_delivered, webhook_error, Hub, Network, decimal, set_header,
}
use notifymain_wa.Webhooks.Delivery.{asked}
use notifymain_wa.Webhooks.Dispatching.{notify}

abbrev pub queued_request : WebhookJob → ℕ → Request
queued_request job attempts_made = record {
  webhook_id = job.webhook_id;
  url = job.url;
  headers = set_header (codes "X-OpenWA-Retry-Count") (decimal attempts_made) job.headers;
  payload = job.payload;
}

-- Whether it returns, or throws and the queue tries again.
unfoldable pub process : Network → WebhookJob → (attempts_made : ℕ) → Hub → Bool × Hub
process w job attempts_made h =
    let request = queued_request job attempts_made in
    let tried = asked request h in
    let now = w.now tried.draws in
    if w.fetch_succeeds h.draws request
    then (
      true,
      notify webhook_delivered job.webhook_id (record tried {
        webhooks =
            update_where (λ (v : Webhook). v.id == job.webhook_id)
              (λ v. record v { last_triggered_at = some now }) h.webhooks;
        draws = suc tried.draws;
      }),
    )
    else (
      false,
      if leb job.max_retries (attempts_made + 1)
          then notify webhook_error job.webhook_id tried
          else tried,
    )
