-- ===== src/Engine/Sessions.antt =====
-- The operations of src/modules/session/session.service.ts that change its state, and what
-- happens to it from outside: the callbacks of engines, and timers.
use notifymain_wa.Prelude.{
  ℕ, suc, Bool, true, false, not, Option, none, some, List, [], ◌∷◌, ◌++◌, or_else, is_some,
  if◌then◌else◌, keep, is_empty, ◌||◌, find_first, update_where, lookup, has_entry, set_entry,
  delete_entry,
}
use notifymain_wa.Text.{Str, str_eq}
use notifymain_wa.Engine.Data.{
  SessionStatus, created, initializing, qr_ready, authenticating, ready, disconnected, Session,
  CreateSession, ReconnectState, Timer, session_created, session_deleted, session_starting, Service,
  Callback, Outside, session_not_found, name_taken, already_started, engine_error, Outcome,
  returned, completed, rejected,
}
use notifymain_wa.Engine.Reconnect.{
  is_session, run_hook, update_status, is_timer, cancel_reconnect, call_back, initialize_engine,
  execute_reconnect,
}

abbrev pub is_active : SessionStatus → Bool
is_active ready = true
is_active initializing = true
is_active qr_ready = true
is_active authenticating = true
is_active _ = false

unfoldable pub on_module_init : Service → Service
on_module_init s = record s {
  rows = update_where (λ c. is_active c.status) (λ c. record c { status = disconnected }) s.rows;
}

-- The loop over the engines: where one throws, what follows is not done.
abbrev pub destroy_all : Outside → ℕ → List (ℕ × ℕ) → Bool
destroy_all w draws [] = true
destroy_all w draws ((id, engine) ∷ engines) =
    let rest = destroy_all w (suc draws) engines in
    if w.destroy_throws draws engine then false else rest

abbrev pub count_entries : List (ℕ × ℕ) → ℕ → ℕ
count_entries [] draws = draws
count_entries (e ∷ engines) draws = count_entries engines (suc draws)

-- The timers of the states are cleared.
abbrev pub is_held : List (ℕ × ReconnectState) → Timer → Bool
is_held [] t = false
is_held ((id, state) ∷ states) t =
    let rest = is_held states t in
    elim state.timer [ none ↦ rest | some held ↦ is_timer held t || rest ]

unfoldable pub on_module_destroy : Outside → Service → Service
on_module_destroy w s =
    let asked = record s { draws = count_entries s.engines s.draws } in
    if destroy_all w s.draws s.engines
    then record asked {
      engines = [];
      timers = keep (λ t. not (is_held s.reconnect_states t)) s.timers;
      reconnect_states = [];
    }
    else asked

unfoldable pub find_one : ℕ → Service → Option Session
find_one id s = find_first (is_session id) s.rows

unfoldable pub answer : ℕ → Service → Outcome × Service
unfolding find_one
answer id s = elim (find_one id s) [
  | none ↦ (rejected session_not_found, s)
  | some session ↦ (returned session, s)
]

-- `v || null`
abbrev pub or_null : Option Str → Option Str
or_null none = none
or_null (some v) = if is_empty v then none else some v

abbrev pub new_session : ℕ → CreateSession → Session
new_session id dto = record {
  id = id;
  name = dto.name;
  status = created;
  phone = none;
  push_name = none;
  max_reconnect_attempts = dto.max_reconnect_attempts;
  reconnect_base_delay = dto.reconnect_base_delay;
  proxy_url = or_null dto.proxy_url;
  proxy_type = or_null dto.proxy_type;
  connected_at = none;
  last_active_at = none;
}

unfoldable pub create : Outside → CreateSession → Service → Outcome × Service
create w dto s =
    let session = new_session (w.new_id s.draws) dto in
    if is_some (find_first (λ (c : Session). str_eq c.name dto.name) s.rows)
    then (rejected name_taken, s)
    else (
      returned session,
      run_hook session_created session.id
          (record s { rows = s.rows ++ session ∷ []; draws = suc s.draws }),
    )

-- From the hook on.
abbrev pub remove_row : ℕ → Service → Service
remove_row id s =
    let told = run_hook session_deleted id s in
    record told { rows = keep (λ c. not (is_session id c)) s.rows }

unfoldable pub delete : Outside → ℕ → Service → Outcome × Service
unfolding find_one cancel_reconnect
delete w id s = elim (find_one id s) [
  | none ↦ (rejected session_not_found, s)
  | some session ↦
      let cancelled = cancel_reconnect id s in
      elim (lookup id s.engines) [
        | none ↦ (completed, remove_row id cancelled)
        | some engine ↦
            let asked = record cancelled { draws = suc s.draws } in
            if w.destroy_throws s.draws engine
            then (rejected engine_error, asked)
            else (completed, remove_row id (record asked { engines = delete_entry id s.engines }))
      ]
]

-- The hook, and the new state of the reconnection.
abbrev pub started_state : ℕ → Session → Service → Service
started_state id session s = record (run_hook session_starting id s) {
  reconnect_states =
      set_entry id
        (record {
          attempts = 0;
          timer = none;
          max_attempts = or_else session.max_reconnect_attempts 5;
          base_delay = or_else session.reconnect_base_delay 5000;
        })
        s.reconnect_states;
}

abbrev pub answer_start : ℕ → Bool × Service → Outcome × Service
answer_start id (true, s) = answer id s
answer_start id (false, s) = (rejected engine_error, s)

unfoldable pub start : Outside → ℕ → Service → Outcome × Service
unfolding find_one initialize_engine answer
start w id s = elim (find_one id s) [
  | none ↦ (rejected session_not_found, s)
  | some session ↦
      if has_entry id s.engines
      then (rejected already_started, s)
      else answer_start id (initialize_engine w id session (started_state id session s))
]

unfoldable pub stop : Outside → ℕ → Service → Outcome × Service
unfolding find_one cancel_reconnect update_status answer
stop w id s = elim (find_one id s) [
  | none ↦ (rejected session_not_found, s)
  | some session ↦
      let cancelled = cancel_reconnect id s in
      elim (lookup id s.engines) [
        | none ↦ answer id (update_status id disconnected cancelled)
        | some engine ↦
            let asked = record cancelled { draws = suc s.draws } in
            if w.disconnect_throws s.draws engine
            then (rejected engine_error, asked)
            else answer id (
                update_status id disconnected
                  (record asked { engines = delete_entry id s.engines }))
      ]
]

-- A timer that is set runs out.
unfoldable pub run_out : Outside → ℕ → Service → Service
unfolding execute_reconnect
run_out w timer s = elim (find_first (is_timer timer) s.timers) [
  | none ↦ s
  | some t ↦
      execute_reconnect w t.session_id t.session
        (record s { timers = keep (λ other. not (is_timer timer other)) s.timers })
]

pub data Command : Type 0 where
  boot shut_down : Command
  create_session : CreateSession → Command
  delete_session start_session stop_session : (id : ℕ) → Command
  engine_calls : (id : ℕ) → Session → Callback → Command
  timer_runs_out : (timer : ℕ) → Command

unfoldable pub step : Outside → Command → Service → Service
unfolding on_module_init on_module_destroy create delete start stop call_back run_out
step w boot s = on_module_init s
step w shut_down s = on_module_destroy w s
step w (create_session dto) s = (create w dto s).1
step w (delete_session id) s = (delete w id s).1
step w (start_session id) s = (start w id s).1
step w (stop_session id) s = (stop w id s).1
step w (engine_calls id session c) s = call_back w id session c s
step w (timer_runs_out timer) s = run_out w timer s
