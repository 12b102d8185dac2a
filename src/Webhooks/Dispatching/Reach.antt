-- ===== src/Webhooks/Dispatching/Reach.antt =====
-- Which webhooks a dispatch reaches.
use notifymain_wa.Prelude.{
  ℕ, zero, suc, ◌*◌, ◌≡◌, ◌∙◌, ap, refl, inl, inr, Bool, true, false, ◌||◌, List, [], ◌∷◌, ◌++◌,
  any, any-append, keep, All, arith, Bool-cases, ltb, ◌==◌, ==_refl, if◌then◌else◌,
}
use notifymain_wa.Text.{Str, codes}
use notifymain_wa.Webhooks.Keys.{generate_idempotency_key}
use notifymain_wa.Hooks.{HookManager}
use notifymain_wa.Webhooks.Data.{
  Webhook, text, Fields, WebhookPayload, Request, Hub, Network, spread,
}
use notifymain_wa.Webhooks.Delivery.{attempt_headers, request_of, asked, deliver_webhook}
use notifymain_wa.Webhooks.Dispatching.{
  is_matching, set_field, tell_delivery, enqueue, job_of, send, hooked, base_headers, dispatch_one,
  dispatch_all, dispatch,
}

-- A request was made to the webhook.
abbrev pub is_asked : ℕ → Hub → Bool
is_asked id h = any (λ (r : Request). r.webhook_id == id) h.requests

module _ (w : Network) where
  asked-keep :
      (id : ℕ) (request : Request) (h : Hub)
      → is_asked id (asked request h) ≡ (is_asked id h || ((request.webhook_id == id) || false))
  asked-keep id request h =
      any-append (λ (r : Request). r.webhook_id == id) h.requests (request ∷ [])

  deliver_webhook-keep :
      (id : ℕ) (webhook : Webhook) (payload : WebhookPayload) (fuel attempt : ℕ)
      (headers : List (Str × Str)) (h : Hub)
      → (is_asked id h || (webhook.id == id)) ≡ true
      → is_asked id (deliver_webhook w webhook payload fuel attempt headers h).1 ≡ true
  unfolding deliver_webhook
  deliver_webhook-keep id webhook payload zero attempt headers h known =
      let request =
        request_of webhook payload (attempt_headers w webhook payload attempt headers) in
      let now_asked : is_asked id (asked request h) ≡ true =
        rw (asked-keep id request h) (ground arith) in
      elim (Bool-cases (w.fetch_succeeds h.draws request)) [
        | inl e ↦ rw (e, deliver_webhook) now_asked
        | inr e ↦ rw (e, deliver_webhook) now_asked
      ]
  deliver_webhook-keep id webhook payload (suc fuel) attempt headers h known =
      let sent = attempt_headers w webhook payload attempt headers in
      let request = request_of webhook payload sent in
      let now_asked : is_asked id (asked request h) ≡ true =
        rw (asked-keep id request h) (ground arith) in
      elim (Bool-cases (w.fetch_succeeds h.draws request)) [
        | inl e ↦ rw (e, deliver_webhook) now_asked
        | inr e ↦ elim (Bool-cases (ltb attempt webhook.retry_count)) [
          | inr last ↦ rw (e, last, deliver_webhook) now_asked
          | inl more ↦
              rw (e, more, deliver_webhook)
                (deliver_webhook-keep id webhook payload fuel (suc attempt) sent
                  (record (asked request h) { waits = h.waits ++ w.retry_delay * attempt ∷ [] })
                  (ground arith))
        ]
      ]

tell_delivery-asked :
    (id target : ℕ) (r : Bool × Hub) → is_asked id (tell_delivery target r) ≡ is_asked id r.1
tell_delivery-asked id target (true, h) = refl
tell_delivery-asked id target (false, h) = refl

send-direct :
    (w : Network) (event : Str) (webhook : Webhook) (payload : WebhookPayload)
    (headers : List (Str × Str)) (h : Hub)
    → w.queue_enabled ≡ false
    → send w event webhook payload headers h
      ≡ tell_delivery webhook.id (deliver_webhook w webhook payload webhook.retry_count 1 headers h)
unfolding send
send-direct w event webhook payload headers h direct =
    ap
      (λ q.
        if q
        then enqueue w webhook (job_of w webhook event payload headers) h
        else tell_delivery webhook.id
            (deliver_webhook w webhook payload webhook.retry_count 1 headers h))
      direct

module _ (w : Network) (manager : HookManager WebhookPayload) (session_id : ℕ) (event : Str)
    (key : Str) (fields : Fields) (direct : w.queue_enabled ≡ false)
    (unstopped : (draws : ℕ) → (hooked w manager session_id event key fields draws).0 ≡ true) where
  dispatch_one-asked :
      (id : ℕ) (webhook : Webhook) (h : Hub)
      → (is_asked id h || (webhook.id == id)) ≡ true
      → is_asked id (dispatch_one w manager session_id event key fields webhook h) ≡ true
  unfolding dispatch_one send
  dispatch_one-asked id webhook h known =
      let final = (hooked w manager session_id event key fields h.draws).1 in
      let headers = spread (base_headers w event key (w.new_id h.draws)) webhook.headers in
      let next = record h { draws = suc (suc (suc h.draws)) } in
      rw (unstopped h.draws) (
        ap (is_asked id) (send-direct w event webhook final headers next direct)
        ∙ tell_delivery-asked id webhook.id
            (deliver_webhook w webhook final webhook.retry_count 1 headers next)
        ∙ deliver_webhook-keep w id webhook final webhook.retry_count 1 headers next known)

  dispatch_all-kept :
      (id : ℕ) (webhooks : List Webhook) (h : Hub)
      → is_asked id h ≡ true
      → is_asked id (dispatch_all w manager session_id event key fields webhooks h) ≡ true
  unfolding dispatch_all
  dispatch_all-kept id [] h known = known
  dispatch_all-kept id (webhook ∷ webhooks) h known =
      dispatch_all-kept id webhooks (dispatch_one w manager session_id event key fields webhook h)
        (dispatch_one-asked id webhook h (rw known refl))

  dispatch_all-asked :
      (webhooks : List Webhook) (h : Hub)
      → All
          (λ (v : Webhook).
            is_asked v.id (dispatch_all w manager session_id event key fields webhooks h) ≡ true)
          webhooks
  unfolding dispatch_all
  dispatch_all-asked [] h = tt
  dispatch_all-asked (webhook ∷ webhooks) h =
      let next = dispatch_one w manager session_id event key fields webhook h in
      (
        dispatch_all-kept webhook.id webhooks next
            (dispatch_one-asked webhook.id webhook h (rw (==_refl webhook.id) (ground arith))),
        dispatch_all-asked webhooks next,
      )

-- Every active webhook of the session that listens to the event gets a request, whether the
-- deliveries to the others succeed or not: where the queue is off, and no hook stops the event.
pub dispatch-reaches :
    (w : Network) (manager : HookManager WebhookPayload) (session_id : ℕ) (event : Str)
    (fields : Fields) (h : Hub)
    → w.queue_enabled ≡ false
    → ((key : Str) (draws : ℕ) → (hooked w manager session_id event key fields draws).0 ≡ true)
    → All
        (λ (v : Webhook). is_asked v.id (dispatch w manager session_id event fields h) ≡ true)
        (keep (is_matching session_id event) h.webhooks)
unfolding dispatch
dispatch-reaches w manager session_id event fields h direct unstopped =
    let key =
      generate_idempotency_key w.hash event
        (set_field (codes "sessionId") (text (w.id_text session_id)) fields) in
    dispatch_all-asked w manager session_id event key fields direct (unstopped key)
      (keep (is_matching session_id event) h.webhooks) h
