-- ===== src/Engine/Data.antt =====
-- The state of src/modules/session/session.service.ts: the rows of src/modules/session/entities,
-- the maps `engines` and `reconnectStates`, the timers that are set, and in order what is told to
-- the hooks, to the sockets and to the webhooks. An engine is a number.
use notifymain_wa.Prelude.{ℕ, Bool, Option, List}
use notifymain_wa.Text.{Str}

pub data SessionStatus : Type 0 where
  created initializing qr_ready authenticating ready disconnected failed : SessionStatus

-- The two settings are those of `config` that the service reads.
pub record Session : Type 0 where
  pub id : ℕ
  pub name : Str
  pub status : SessionStatus
  pub phone : Option Str
  pub push_name : Option Str
  pub max_reconnect_attempts : Option ℕ
  pub reconnect_base_delay : Option ℕ
  pub proxy_url : Option Str
  pub proxy_type : Option Str
  pub connected_at : Option ℕ
  pub last_active_at : Option ℕ

pub record CreateSession : Type 0 where
  pub name : Str
  pub max_reconnect_attempts : Option ℕ
  pub reconnect_base_delay : Option ℕ
  pub proxy_url : Option Str
  pub proxy_type : Option Str

pub record ReconnectState : Type 0 where
  pub attempts : ℕ
  pub timer : Option ℕ
  pub max_attempts : ℕ
  pub base_delay : ℕ

-- `setTimeout`: the session that the callback has captured, and the delay in milliseconds.
pub record Timer : Type 0 where
  pub id : ℕ
  pub session_id : ℕ
  pub session : Session
  pub delay : ℕ

-- The events of `hookManager.execute`, but for `message:received`.
pub data HookName : Type 0 where
  session_created session_deleted session_starting session_qr session_ready : HookName
  session_disconnected : HookName

pub record Service : Type 0 where
  pub rows : List Session
  pub engines : List (ℕ × ℕ)
  pub reconnect_states : List (ℕ × ReconnectState)
  pub timers : List Timer
  pub hooks : List (HookName × ℕ)
  pub statuses : List (ℕ × SessionStatus)
  pub dispatched : List (ℕ × Str)
  pub draws : ℕ  -- how often the outside was asked

-- What an engine calls back, while `initialize` runs or later.
pub data Callback : Type 0 where
  on_qr_code : Callback
  on_ready : (phone push_name : Str) → Callback
  on_message : (message : Str) → Callback
  on_disconnected : (reason : Str) → Callback
  on_state_changed : SessionStatus → Callback

-- The outside: the clock, the ids of the database, `Math.random() * 1000` without its fraction,
-- what `initialize` calls back before it returns or throws, whether `destroy` and `disconnect`
-- throw, and what the hook of a message makes of it: none where a plugin stops it.
pub record Outside : Type 0 where
  pub now : ℕ → ℕ
  pub new_id : ℕ → ℕ
  pub jitter : ℕ → ℕ
  pub initialize : ℕ → Session → List Callback × Bool
  pub destroy_throws : ℕ → (engine : ℕ) → Bool
  pub disconnect_throws : ℕ → (engine : ℕ) → Bool
  pub message_hook : ℕ → (message : Str) → Option Str

pub data Failure : Type 0 where
  session_not_found name_taken already_started engine_error : Failure

pub data Outcome : Type 0 where
  returned : Session → Outcome
  completed : Outcome
  rejected : Failure → Outcome
