-- ===== src/Webhooks/Delivery.antt =====
-- `deliverWebhook` of src/modules/webhook/webhook.service.ts. The attempts left are the fuel.
pub mod Attempts
use notifymain_wa.Prelude.{
  ℕ, zero, suc, ◌+◌, ◌*◌, ◌-◌, Bool, true, false, not, ◌&&◌, Option, none, some, is_some, List, [],
  ◌∷◌, ◌++◌, if◌then◌else◌, is_empty, find_first, ltb, ◌==◌, update_where,
}
use notifymain_wa.Text.{Str, codes, str_eq}
use notifymain_wa.Webhooks.Data.{
  Webhook, WebhookPayload, Request, Hub, Network, decimal, set_header,
}

-- A secret that is not empty.
abbrev pub secret_of : Webhook → Option Str
secret_of webhook = elim webhook.secret [
  | none ↦ none
  | some secret ↦ if is_empty secret then none else some secret
]

abbrev pub signature_header : Str
signature_header = codes "X-OpenWA-Signature"

abbrev pub has_signature : List (Str × Str) → Bool
has_signature headers = elim (find_first (λ (h : Str × Str). str_eq h.0 signature_header) headers) [
  | none ↦ false
  | some h ↦ not (is_empty h.1)
]

abbrev pub signed : Network → Webhook → WebhookPayload → List (Str × Str) → List (Str × Str)
signed w webhook payload headers = elim (secret_of webhook) [
  | none ↦ headers
  | some secret ↦
      if has_signature headers
      then headers
      else set_header signature_header (w.sign payload secret) headers
]

abbrev pub attempt_headers :
    Network → Webhook → WebhookPayload → ℕ → List (Str × Str) → List (Str × Str)
attempt_headers w webhook payload attempt headers =
    signed w webhook payload
      (set_header (codes "X-OpenWA-Retry-Count") (decimal (attempt - 1)) headers)

abbrev pub request_of : Webhook → WebhookPayload → List (Str × Str) → Request
request_of webhook payload headers = record {
  webhook_id = webhook.id;
  url = webhook.url;
  headers = headers;
  payload = payload;
}

abbrev pub asked : Request → Hub → Hub
asked request h = record h { requests = h.requests ++ request ∷ []; draws = suc h.draws }

-- `lastTriggeredAt`
abbrev pub triggered : Network → Webhook → Hub → Hub
triggered w webhook h =
    let now = w.now h.draws in
    record h {
      webhooks =
          update_where (λ (v : Webhook). v.id == webhook.id)
            (λ v. record v { last_triggered_at = some now }) h.webhooks;
      draws = suc h.draws;
    }

-- Whether it returns, or throws. The headers are one object, which each attempt writes.
unfoldable pub deliver_webhook :
    Network → Webhook → WebhookPayload → (fuel attempt : ℕ) → List (Str × Str) → Hub → Bool × Hub
deliver_webhook w webhook payload zero attempt headers h =
    let sent = attempt_headers w webhook payload attempt headers in
    let request = request_of webhook payload sent in
    if w.fetch_succeeds h.draws request
    then (true, triggered w webhook (asked request h))
    else (false, asked request h)
deliver_webhook w webhook payload (suc fuel) attempt headers h =
    let sent = attempt_headers w webhook payload attempt headers in
    let request = request_of webhook payload sent in
    elim (w.fetch_succeeds h.draws request) [
      | true ↦ (true, triggered w webhook (asked request h))
      | false ↦ elim (ltb attempt webhook.retry_count) [
        | false ↦ (false, asked request h)
        | true ↦
            deliver_webhook w webhook payload fuel (suc attempt) sent
              (record (asked request h) { waits = h.waits ++ w.retry_delay * attempt ∷ [] })
      ]
    ]
