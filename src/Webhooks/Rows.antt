-- ===== src/Webhooks/Rows.antt =====
-- `create`, `update`, `delete` and `test` of src/modules/webhook/webhook.service.ts.
use notifymain_wa.Prelude.{
  ℕ, suc, Bool, true, false, not, is_empty, Option, none, some, or_else, List, [], ◌∷◌, ◌++◌, ◌==◌,
  if◌then◌else◌, find_first, update_where, keep,
}
use notifymain_wa.Text.{Str, codes}
use notifymain_wa.Webhooks.Data.{Webhook, text, WebhookPayload, Hub, Network, set_header, spread}
use notifymain_wa.Webhooks.Keys.{generate_idempotency_key}
use notifymain_wa.Webhooks.Delivery.{secret_of, signature_header, request_of, asked}

pub record CreateWebhook : Type 0 where
  pub url : Str
  pub events : Option (List Str)
  pub secret : Option Str
  pub headers : Option (List (Str × Str))
  pub retry_count : Option ℕ

-- What is not given stays.
pub record UpdateWebhook : Type 0 where
  pub url : Option Str
  pub events : Option (List Str)
  pub secret : Option Str
  pub headers : Option (List (Str × Str))
  pub active : Option Bool
  pub retry_count : Option ℕ

abbrev pub is_webhook : ℕ → Webhook → Bool
is_webhook id v = v.id == id

-- An empty secret is no secret in a new row.
unfoldable pub create : Network → ℕ → CreateWebhook → Hub → Webhook × Hub
create w session_id dto h =
    let row : Webhook = record {
      id = w.new_id h.draws;
      session_id = session_id;
      url = dto.url;
      events = or_else dto.events (codes "message.received" ∷ []);
      secret = elim dto.secret [ none ↦ none | some s ↦ if is_empty s then none else some s ];
      headers = or_else dto.headers [];
      active = true;
      retry_count = or_else dto.retry_count 3;
      last_triggered_at = none;
    } in
    (row, record h { webhooks = h.webhooks ++ row ∷ []; draws = suc h.draws })

abbrev pub apply_update : UpdateWebhook → Webhook → Webhook
apply_update dto v = record v {
  url = or_else dto.url v.url;
  events = or_else dto.events v.events;
  secret = elim dto.secret [ none ↦ v.secret | some s ↦ some s ];
  headers = or_else dto.headers v.headers;
  active = or_else dto.active v.active;
  retry_count = or_else dto.retry_count v.retry_count;
}

-- None where the row is not found.
unfoldable pub update : ℕ → UpdateWebhook → Hub → Option Webhook × Hub
update id dto h = elim (find_first (is_webhook id) h.webhooks) [
  | none ↦ (none, h)
  | some v ↦ (
    some (apply_update dto v),
    record h { webhooks = update_where (is_webhook id) (apply_update dto) h.webhooks },
  )
]

-- Whether the row was found.
unfoldable pub delete : ℕ → Hub → Bool × Hub
delete id h = elim (find_first (is_webhook id) h.webhooks) [
  | none ↦ (false, h)
  | some v ↦ (true, record h { webhooks = keep (λ r. not (is_webhook id r)) h.webhooks })
]

abbrev pub test_payload : Network → ℕ → Webhook → ℕ → WebhookPayload
unfolding generate_idempotency_key
test_payload w session_id v draws = record {
  event = codes "test";
  timestamp = w.now draws;
  session_id = session_id;
  idempotency_key =
      generate_idempotency_key w.hash (codes "test")
        ((codes "webhookId", text (w.id_text v.id)) ∷ []);
  delivery_id = w.new_id (suc draws);
  fields =
      (codes "message", text (codes "This is a test webhook from OpenWA"))
      ∷ (codes "webhookId", text (w.id_text v.id))
      ∷ (codes "url", text v.url)
      ∷ [];
}

abbrev pub test_headers : Network → Webhook → WebhookPayload → List (Str × Str)
test_headers w v payload =
    let headers =
      spread
        ((codes "Content-Type", codes "application/json")
          ∷ (codes "User-Agent", codes "OpenWA-Webhook/1.0.0")
          ∷ (codes "X-OpenWA-Event", codes "test")
          ∷ (codes "X-OpenWA-Idempotency-Key", payload.idempotency_key)
          ∷ (codes "X-OpenWA-Delivery-Id", w.id_text payload.delivery_id)
          ∷ (codes "X-OpenWA-Retry-Count", codes "0")
          ∷ [])
        v.headers in
    elim (secret_of v) [
      | none ↦ headers
      | some secret ↦ set_header signature_header (w.sign payload secret) headers
    ]

-- None where the row is not found, and else whether the request was answered with a success.
unfoldable pub test : Network → ℕ → ℕ → Hub → Option Bool × Hub
unfolding test_payload
test w session_id id h = elim (find_first (is_webhook id) h.webhooks) [
  | none ↦ (none, h)
  | some v ↦
      let payload = test_payload w session_id v h.draws in
      let request = request_of v payload (test_headers w v payload) in
      (
        some (w.fetch_succeeds (suc (suc h.draws)) request),
        asked request (record h { draws = suc (suc h.draws) }),
      )
]
