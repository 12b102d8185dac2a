-- ===== src/Webhooks/Data.antt =====
-- The rows of src/modules/webhook/entities/webhook.entity.ts, and the state around
-- src/modules/webhook/webhook.service.ts: the requests made, the jobs of the queue, what the hooks
-- are told, and the pauses, each in order. A delivery id is a number.
use notifymain_wa.Prelude.{
  ℕ, Bool, Option, List, [], ◌∷◌, if◌then◌else◌, ltb, ◌+◌, ◌/◌, ◌%◌, suc, zero, ◌++◌,
}
use notifymain_wa.Text.{Str, str_eq}

pub record Webhook : Type 0 where
  pub id : ℕ
  pub session_id : ℕ
  pub url : Str
  pub events : List Str
  pub secret : Option Str
  pub headers : List (Str × Str)
  pub active : Bool
  pub retry_count : ℕ
  pub last_triggered_at : Option ℕ

-- A value of an event's data: a number is its text, and `compound` an object or an array.
pub data Json : Type 0 where
  null : Json
  text : Str → Json
  number : (shown : Str) → Json
  boolean : Bool → Json
  compound : (shown : Str) → Json

abbrev pub Fields : Type 0
Fields = List (Str × Json)

pub record WebhookPayload : Type 0 where
  pub event : Str
  pub timestamp : ℕ
  pub session_id : ℕ
  pub idempotency_key : Str
  pub delivery_id : ℕ
  pub fields : Fields  -- `data`

pub record Request : Type 0 where
  pub webhook_id : ℕ
  pub url : Str
  pub headers : List (Str × Str)
  pub payload : WebhookPayload

pub record WebhookJob : Type 0 where
  pub webhook_id : ℕ
  pub url : Str
  pub event : Str
  pub payload : WebhookPayload
  pub signature : Str
  pub headers : List (Str × Str)
  pub max_retries : ℕ

-- The events of `hookManager.execute` that only tell what happened.
pub data Notice : Type 0 where
  webhook_queued webhook_error webhook_delivered webhook_after : Notice

pub record Hub : Type 0 where
  pub webhooks : List Webhook
  pub requests : List Request
  pub jobs : List WebhookJob
  pub notices : List (Notice × ℕ)
  pub waits : List ℕ
  pub draws : ℕ  -- how often the outside was asked

-- The outside: the clock, `randomUUID`, the hash of an object, the signature of a payload under a
-- secret, whether a request is answered with a success, whether the queue takes a job, the
-- settings, and the text of an id.
pub record Network : Type 0 where
  pub now : ℕ → ℕ
  pub new_id : ℕ → ℕ
  pub hash : Fields → Str
  pub sign : WebhookPayload → Str → Str
  pub fetch_succeeds : ℕ → Request → Bool
  pub queue_takes : ℕ → WebhookJob → Bool
  pub queue_enabled : Bool
  pub retry_delay : ℕ
  pub id_text : ℕ → Str

-- `String(n)`, with fuel for its digits.
abbrev decimal_digits : ℕ → ℕ → Str
decimal_digits zero n = []
decimal_digits (suc fuel) n =
    let rest = decimal_digits fuel (n / 10) in
    (if ltb n 10 then [] else rest) ++ ((b'0' + n % 10) ∷ [])

abbrev pub decimal : ℕ → Str
decimal n = decimal_digits (suc n) n

-- `headers[name] = value`
abbrev pub set_header : Str → Str → List (Str × Str) → List (Str × Str)
set_header name value [] = (name, value) ∷ []
set_header name value ((other, old) ∷ headers) =
    let rest = set_header name value headers in
    if str_eq other name then (other, value) ∷ headers else (other, old) ∷ rest

-- `{ ...headers, ...more }`
abbrev pub spread : List (Str × Str) → List (Str × Str) → List (Str × Str)
spread headers [] = headers
spread headers ((name, value) ∷ more) = spread (set_header name value headers) more
