-- ===== src/Webhooks/Dispatching.antt =====
-- `dispatch` of src/modules/webhook/webhook.service.ts, and the other operations on its rows. The
-- hooks of `webhook:before` are those of the hook manager.
pub mod Reach
use notifymain_wa.Prelude.{
  ℕ, suc, Bool, true, false, not, ◌&&◌, ◌||◌, Option, none, some, is_some, or_else, List, [], ◌∷◌,
  ◌++◌, if◌then◌else◌, is_empty, find_first, any, keep, ◌==◌,
}
use notifymain_wa.Text.{Str, codes, str_eq}
use notifymain_wa.Hooks.{HookManager, execute}
use notifymain_wa.Webhooks.Data.{
  Webhook, Json, text, Fields, WebhookPayload, WebhookJob, Notice, webhook_queued, webhook_error,
  webhook_delivered, webhook_after, Hub, Network, set_header, spread,
}
use notifymain_wa.Webhooks.Keys.{generate_idempotency_key}
use notifymain_wa.Webhooks.Delivery.{secret_of, signature_header, deliver_webhook}

-- The numbers of the event `webhook:before` and of the source `WebhookService`.
abbrev pub webhook_before : ℕ
webhook_before = 0

abbrev pub webhook_service : ℕ
webhook_service = 0

abbrev pub listens : Str → Webhook → Bool
listens event webhook =
    any (λ e. str_eq e event) webhook.events || any (λ e. str_eq e (codes "*")) webhook.events

-- The active webhooks of a session that listen to the event.
abbrev pub is_matching : ℕ → Str → Webhook → Bool
is_matching session_id event webhook =
    (webhook.session_id == session_id) && webhook.active && listens event webhook

abbrev pub set_field : Str → Json → Fields → Fields
set_field name value [] = (name, value) ∷ []
set_field name value ((other, old) ∷ fields) =
    let rest = set_field name value fields in
    if str_eq other name then (other, value) ∷ fields else (other, old) ∷ rest

abbrev pub notify : Notice → ℕ → Hub → Hub
notify notice id h = record h { notices = h.notices ++ (notice, id) ∷ [] }

-- The headers, before those of an attempt.
abbrev pub base_headers : Network → Str → Str → ℕ → List (Str × Str)
base_headers w event key delivery_id =
    (codes "Content-Type", codes "application/json")
    ∷ (codes "User-Agent", codes "OpenWA-Webhook/1.0.0")
    ∷ (codes "X-OpenWA-Event", event)
    ∷ (codes "X-OpenWA-Idempotency-Key", key)
    ∷ (codes "X-OpenWA-Delivery-Id", w.id_text delivery_id)
    ∷ (codes "X-OpenWA-Retry-Count", codes "0")
    ∷ []

abbrev pub job_of : Network → Webhook → Str → WebhookPayload → List (Str × Str) → WebhookJob
job_of w webhook event payload headers = elim (secret_of webhook) [
  | none ↦ record {
    webhook_id = webhook.id;
    url = webhook.url;
    event = event;
    payload = payload;
    signature = [];
    headers = headers;
    max_retries = webhook.retry_count;
  }
  | some secret ↦ record {
    webhook_id = webhook.id;
    url = webhook.url;
    event = event;
    payload = payload;
    signature = w.sign payload secret;
    headers = set_header signature_header (w.sign payload secret) headers;
    max_retries = webhook.retry_count;
  }
]

unfoldable pub enqueue : Network → Webhook → WebhookJob → Hub → Hub
enqueue w webhook job h =
    let tried = record h { draws = suc h.draws } in
    if w.queue_takes h.draws job
    then notify webhook_queued webhook.id (record tried { jobs = h.jobs ++ job ∷ [] })
    else notify webhook_error webhook.id tried

abbrev pub tell_delivery : ℕ → Bool × Hub → Hub
tell_delivery id (true, h) = notify webhook_after id (notify webhook_delivered id h)
tell_delivery id (false, h) = notify webhook_error id h

-- After the hooks: the queue, or else the delivery at once.
unfoldable pub send : Network → Str → Webhook → WebhookPayload → List (Str × Str) → Hub → Hub
unfolding enqueue deliver_webhook
send w event webhook payload headers h =
    if w.queue_enabled
    then enqueue w webhook (job_of w webhook event payload headers) h
    else tell_delivery webhook.id
        (deliver_webhook w webhook payload webhook.retry_count 1 headers h)

abbrev pub new_payload : Network → ℕ → Str → Str → Fields → ℕ → WebhookPayload
new_payload w session_id event key fields draws = record {
  event = event;
  timestamp = w.now (suc draws);
  session_id = session_id;
  idempotency_key = key;
  delivery_id = w.new_id draws;
  fields = fields;
}

module _ (w : Network) (manager : HookManager WebhookPayload) (session_id : ℕ) (event : Str)
    (key : Str) (fields : Fields) where
  -- What the hooks make of the payload.
  unfoldable pub hooked : ℕ → Bool × WebhookPayload
  unfolding execute
  hooked draws =
      execute webhook_before (new_payload w session_id event key fields draws) (some session_id)
        webhook_service (w.now (suc (suc draws))) manager

  -- One round of the loop over the matching webhooks.
  unfoldable pub dispatch_one : Webhook → Hub → Hub
  unfolding send hooked
  dispatch_one webhook h =
      let (continues, final) = hooked h.draws in
      let asked = record h { draws = suc (suc (suc h.draws)) } in
      if continues
      then send w event webhook final
          (spread (base_headers w event key (w.new_id h.draws)) webhook.headers) asked
      else asked

  unfoldable pub dispatch_all : List Webhook → Hub → Hub
  unfolding dispatch_one
  dispatch_all [] h = h
  dispatch_all (webhook ∷ webhooks) h = dispatch_all webhooks (dispatch_one webhook h)

unfoldable pub dispatch : Network → HookManager WebhookPayload → ℕ → Str → Fields → Hub → Hub
unfolding dispatch_all generate_idempotency_key
dispatch w manager session_id event fields h =
    let key =
      generate_idempotency_key w.hash event
        (set_field (codes "sessionId") (text (w.id_text session_id)) fields) in
    dispatch_all w manager session_id event key fields
      (keep (is_matching session_id event) h.webhooks) h
