-- ===== src/Engine/Reconnect.antt =====
-- The callbacks of an engine, and the reconnection after a disconnect, from
-- src/modules/session/session.service.ts.
use notifymain_wa.Prelude.{
  ℕ, suc, ◌+◌, ◌*◌, ◌^◌, Bool, true, false, not, Option, none, some, List, [], ◌∷◌, ◌++◌, ◌==◌, leb,
  if◌then◌else◌, keep, update_where, lookup, set_entry, delete_entry,
}
use notifymain_wa.Engine.Data.{
  SessionStatus, initializing, qr_ready, ready, disconnected, Session, ReconnectState, Timer,
  HookName, session_qr, session_ready, session_disconnected, Service, Callback, on_qr_code,
  on_ready, on_message, on_disconnected, on_state_changed, Outside,
}

abbrev pub is_session : ℕ → Session → Bool
is_session id c = c.id == id

abbrev pub update_row : ℕ → (Session → Session) → Service → Service
update_row id f s = record s { rows = update_where (is_session id) f s.rows }

abbrev pub run_hook : HookName → ℕ → Service → Service
run_hook name id s = record s { hooks = s.hooks ++ (name, id) ∷ [] }

unfoldable pub update_status : ℕ → SessionStatus → Service → Service
update_status id status s = record (update_row id (λ c. record c { status = status }) s) {
  statuses = s.statuses ++ (id, status) ∷ [];
}

abbrev pub reconnect_delay : Outside → ReconnectState → ℕ → ℕ
reconnect_delay w state draws = state.base_delay * 2 ^ state.attempts + w.jitter draws

-- The new timer takes the place of the old one in the state; the old one is not cleared.
unfoldable pub schedule_reconnect : Outside → ℕ → Session → Service → Service
schedule_reconnect w id session s = elim (lookup id s.reconnect_states) [
  | none ↦ s
  | some state ↦ if leb state.max_attempts state.attempts then s else record s {
    timers =
        s.timers
        ++ record {
          id = s.draws;
          session_id = id;
          session = session;
          delay = reconnect_delay w state s.draws;
        }
          ∷ [];
    reconnect_states =
        set_entry id (record state { attempts = suc state.attempts; timer = some s.draws })
          s.reconnect_states;
    draws = suc s.draws;
  }
]

abbrev pub is_timer : ℕ → Timer → Bool
is_timer id t = t.id == id

-- `clearTimeout`
abbrev pub clear_timer : Option ℕ → List Timer → List Timer
clear_timer none timers = timers
clear_timer (some id) timers = keep (λ t. not (is_timer id t)) timers

unfoldable pub cancel_reconnect : ℕ → Service → Service
cancel_reconnect id s = elim (lookup id s.reconnect_states) [
  | none ↦ s
  | some state ↦ record s {
    timers = clear_timer state.timer s.timers;
    reconnect_states = delete_entry id s.reconnect_states;
  }
]

abbrev pub reset_attempts : ℕ → Service → Service
reset_attempts id s = elim (lookup id s.reconnect_states) [
  | none ↦ s
  | some state ↦ record s {
    reconnect_states = set_entry id (record state { attempts = 0 }) s.reconnect_states;
  }
]

-- One callback of the engine of a session; `session` is the row that `initializeEngine` was given.
unfoldable pub call_back : Outside → ℕ → Session → Callback → Service → Service
unfolding update_status schedule_reconnect
call_back w id session on_qr_code s = update_status id qr_ready (run_hook session_qr id s)
call_back w id session (on_ready phone push_name) s =
    let now = w.now s.draws in
    update_row id
      (λ c. record c {
        status = ready;
        phone = some phone;
        push_name = some push_name;
        connected_at = some now;
        last_active_at = some now;
      })
      (reset_attempts id (run_hook session_ready id (record s { draws = suc s.draws })))
call_back w id session (on_message message) s =
    let now = w.now s.draws in
    let seen =
      update_row id (λ c. record c { last_active_at = some now })
        (record s { draws = suc s.draws }) in
    elim (w.message_hook s.draws message) [
      | none ↦ seen
      | some final ↦ record seen { dispatched = s.dispatched ++ (id, final) ∷ [] }
    ]
call_back w id session (on_disconnected reason) s =
    schedule_reconnect w id session
      (update_status id disconnected (run_hook session_disconnected id s))
call_back w id session (on_state_changed status) s = update_status id status s

unfoldable pub call_backs : Outside → ℕ → Session → List Callback → Service → Service
unfolding call_back
call_backs w id session [] s = s
call_backs w id session (c ∷ cs) s = call_backs w id session cs (call_back w id session c s)

-- Whether it returns, and the service then. An engine whose `initialize` throws stays in the map.
unfoldable pub initialize_engine : Outside → ℕ → Session → Service → Bool × Service
unfolding call_backs update_status
initialize_engine w id session s =
    let (calls, returns) = w.initialize s.draws session in
    let started =
      call_backs w id session calls
        (record s { engines = set_entry id s.draws s.engines; draws = suc s.draws }) in
    if returns then (true, update_status id initializing started) else (false, started)

-- What follows the removal of the old engine.
unfoldable pub start_again : Outside → ℕ → Session → Service → Service
unfolding initialize_engine schedule_reconnect
start_again w id session s =
    let (returns, started) = initialize_engine w id session s in
    if returns then started else schedule_reconnect w id session started

unfoldable pub execute_reconnect : Outside → ℕ → Session → Service → Service
unfolding start_again schedule_reconnect
execute_reconnect w id session s = elim (lookup id s.engines) [
  | none ↦ start_again w id session s
  | some engine ↦
      let asked = record s { draws = suc s.draws } in
      if w.destroy_throws s.draws engine
      then schedule_reconnect w id session asked
      else start_again w id session (record asked { engines = delete_entry id s.engines })
]
