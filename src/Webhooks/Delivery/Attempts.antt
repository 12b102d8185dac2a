-- ===== src/Webhooks/Delivery/Attempts.antt =====
-- How often a delivery is tried.
use notifymain_wa.Prelude.{
  ℕ, zero, suc, ◌+◌, ◌-◌, ◌≤◌, ◌<◌, ◌*◌, ◌++◌, ◌≡◌, inl, inr, false, List, [], ◌∷◌, length,
  length-append, arith, max, Bool-cases, ltb,
}
use notifymain_wa.Text.{Str}
use notifymain_wa.Webhooks.Data.{Webhook, WebhookPayload, Hub, Network}
use notifymain_wa.Webhooks.Delivery.{attempt_headers, asked, request_of, deliver_webhook}

-- A delivery that starts at an attempt: as many requests as are left, or fewer.
attempts_left :
    (w : Network) (webhook : Webhook) (payload : WebhookPayload) (fuel attempt : ℕ)
    (headers : List (Str × Str)) (h : Hub)
    → webhook.retry_count ≤ fuel + attempt
    → (length (deliver_webhook w webhook payload fuel attempt headers h).1.requests
        ≤ length h.requests + 1 + (webhook.retry_count - attempt))
      × (suc (length h.requests)
          ≤ length (deliver_webhook w webhook payload fuel attempt headers h).1.requests)
      × ((deliver_webhook w webhook payload fuel attempt headers h).0 ≡ false
          → length (deliver_webhook w webhook payload fuel attempt headers h).1.requests
            ≡ length h.requests + 1 + (webhook.retry_count - attempt))
unfolding deliver_webhook
attempts_left w webhook payload zero attempt headers h enough =
    let request = request_of webhook payload (attempt_headers w webhook payload attempt headers) in
    let one = length-append h.requests (request ∷ []) in
    elim (Bool-cases (w.fetch_succeeds h.draws request)) [
      | inl e ↦ rw (e, deliver_webhook) (omega arith, omega arith, λ f. cc)
      | inr e ↦ rw (e, deliver_webhook) (omega arith, omega arith, λ f. omega arith)
    ]
attempts_left w webhook payload (suc fuel) attempt headers h enough =
    let sent = attempt_headers w webhook payload attempt headers in
    let request = request_of webhook payload sent in
    let one = length-append h.requests (request ∷ []) in
    elim (Bool-cases (w.fetch_succeeds h.draws request)) [
      | inl e ↦ rw (e, deliver_webhook) (omega arith, omega arith, λ f. cc)
      | inr e ↦ elim (Bool-cases (ltb attempt webhook.retry_count)) [
        | inl more ↦
            let rest =
              attempts_left w webhook payload fuel (suc attempt) sent
                (record (asked request h) { waits = h.waits ++ w.retry_delay * attempt ∷ [] })
                (omega arith) in
            let left : attempt < webhook.retry_count = ground arith in
            rw (e, more, deliver_webhook)
              (omega (arith, rest.0), omega (arith, rest.1), λ f. omega (arith, rest.2 f))
        | inr last ↦
            let left : webhook.retry_count ≤ attempt = ground arith in
            rw (e, last, deliver_webhook) (omega arith, omega arith, λ f. omega arith)
      ]
    ]

-- A delivery makes one request at least, and at most as many as the webhook has retries, or one where
-- it has none; and it throws only after it has made all of these.
pub deliver_webhook-attempts :
    (w : Network) (webhook : Webhook) (payload : WebhookPayload) (headers : List (Str × Str))
    (h : Hub)
    → (length (deliver_webhook w webhook payload webhook.retry_count 1 headers h).1.requests
        ≤ length h.requests + max 1 webhook.retry_count)
      × (suc (length h.requests)
          ≤ length (deliver_webhook w webhook payload webhook.retry_count 1 headers h).1.requests)
      × ((deliver_webhook w webhook payload webhook.retry_count 1 headers h).0 ≡ false
          → length (deliver_webhook w webhook payload webhook.retry_count 1 headers h).1.requests
            ≡ length h.requests + max 1 webhook.retry_count)
deliver_webhook-attempts w webhook payload headers h =
    let all_left = attempts_left w webhook payload webhook.retry_count 1 headers h (omega arith) in
    (omega (arith, all_left.0), all_left.1, λ f. omega (arith, all_left.2 f))
