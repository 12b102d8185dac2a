-- ===== src/Tests/WebhookTests.antt =====
-- Deliveries to one webhook that fails at first.
use notifymain_wa.Prelude.{
  suc, ℕ, ◌≤◌, ◌+◌, max, ◌≡◌, refl, true, false, none, [], ◌∷◌, All, length, keep, ltb,
}
use notifymain_wa.Text.{Str, codes, str_eq}
use notifymain_wa.Hooks.{HookManager, execute, run_hooks}
use notifymain_wa.Webhooks.Data.{Webhook, text, Fields, WebhookPayload, Hub, Network}
use notifymain_wa.Webhooks.Keys.{generate_idempotency_key, generate_idempotency_key-no_message_id}
use notifymain_wa.Webhooks.Delivery.{deliver_webhook}
use notifymain_wa.Webhooks.Delivery.Attempts.{deliver_webhook-attempts}
use notifymain_wa.Webhooks.Dispatching.{is_matching, hooked, dispatch}
use notifymain_wa.Webhooks.Dispatching.Reach.{is_asked, dispatch-reaches}

-- The first requests fail.
abbrev network : Network
network = record {
  now = λ n. n;
  new_id = λ n. n;
  hash = λ fields. codes "h";
  sign = λ payload secret. secret;
  fetch_succeeds = λ n request. ltb 1 n;
  queue_takes = λ n job. true;
  queue_enabled = false;
  retry_delay = 5000;
  id_text = λ n. codes "id";
}

abbrev hook : Webhook
hook = record {
  id = 2;
  session_id = 3;
  url = codes "https://a.b";
  events = codes "*" ∷ [];
  secret = none;
  headers = [];
  active = true;
  retry_count = 3;
  last_triggered_at = none;
}

abbrev hub : Hub
hub = record { webhooks = hook ∷ []; requests = []; jobs = []; notices = []; waits = []; draws = 0 }

abbrev message : Fields
message = (codes "id", text (codes "m1")) ∷ []

abbrev payload : WebhookPayload
payload = record {
  event = codes "message.received";
  timestamp = 0;
  session_id = 3;
  idempotency_key = codes "k";
  delivery_id = 0;
  fields = message;
}

abbrev no_hooks : HookManager WebhookPayload
no_hooks = record { hooks = []; plugin_hooks = [] }

deliver_webhook-attempts_example :
    (length (deliver_webhook network hook payload 3 1 [] hub).1.requests
      ≤ length hub.requests + max 1 3)
    × (suc (length hub.requests)
        ≤ length (deliver_webhook network hook payload 3 1 [] hub).1.requests)
    × ((deliver_webhook network hook payload 3 1 [] hub).0 ≡ false
        → length (deliver_webhook network hook payload 3 1 [] hub).1.requests
          ≡ length hub.requests + max 1 3)
deliver_webhook-attempts_example = deliver_webhook-attempts network hook payload [] hub

-- Two attempts fail, and the third one succeeds.
third_attempt : (deliver_webhook network hook payload 3 1 [] hub).1.waits ≡ 5000 ∷ 10000 ∷ []
unfolding deliver_webhook
third_attempt = refl

no_hooks-continue :
    (key : Str) (draws : ℕ)
    → (hooked network no_hooks 3 (codes "message.received") key message draws).0 ≡ true
unfolding hooked execute run_hooks
no_hooks-continue key draws = refl

dispatch-reaches_example :
    All
      (λ (v : Webhook).
        is_asked v.id (dispatch network no_hooks 3 (codes "message.received") message hub) ≡ true)
      (keep (is_matching 3 (codes "message.received")) hub.webhooks)
dispatch-reaches_example =
    dispatch-reaches network no_hooks 3 (codes "message.received") message hub refl
      no_hooks-continue

generate_idempotency_key-no_message_id_example :
    generate_idempotency_key (λ fields. codes "h") (codes "message.received") message
    ≡ codes "msg_unknown"
unfolding str_eq
generate_idempotency_key-no_message_id_example =
    generate_idempotency_key-no_message_id (λ fields. codes "h") message refl
