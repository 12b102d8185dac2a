-- ===== src/Engine/Phases.antt =====
-- The sessions of src/modules/session/session.service.ts seen from outside: whether the service
-- knows a session, and whether it holds an engine for it.
use notifymain_wa.Prelude.{
  ℕ, suc, ◌≡◌, refl, ap, ◌∙◌, subst, inl, inr, Bool, true, some, List, [], ◌∷◌, ◌==◌, if◌then◌else◌,
  arith, any, any-update_where, Bool-cases, Option-cases, lookup, has_entry, set_entry,
  delete_entry, has_entry-set_entry, has_entry-delete_entry, leb,
}
use notifymain_wa.Engine.Data.{
  SessionStatus, qr_ready, ready, disconnected, initializing, session_qr, session_ready,
  session_disconnected, Session, Service, Callback, on_qr_code, on_ready, on_message,
  on_disconnected, on_state_changed, Outside,
}
use notifymain_wa.Engine.Reconnect.{
  is_session, run_hook, update_row, update_status, schedule_reconnect, cancel_reconnect,
  reset_attempts, call_back, call_backs, initialize_engine, start_again, execute_reconnect,
}

-- Known, and running.
abbrev pub Phase : Type 0
Phase = Bool × Bool

abbrev pub known : ℕ → Service → Bool
known i s = any (is_session i) s.rows

abbrev pub running : ℕ → Service → Bool
running i s = has_entry i s.engines

abbrev pub phase : ℕ → Service → Phase
phase i s = (known i s, running i s)

update_row-phase :
    (i id : ℕ) (f : Session → Session) (s : Service)
    → ((c : Session) → (f c).id ≡ c.id)
    → phase i (update_row id f s) ≡ phase i s
update_row-phase i id f s same =
    ap (λ k. (k, running i s))
      (any-update_where (is_session i) (is_session id) f s.rows (λ c. ap (λ n. n == i) (same c)))

pub update_status-phase :
    (i id : ℕ) (status : SessionStatus) (s : Service)
    → phase i (update_status id status s) ≡ phase i s
unfolding update_status
update_status-phase i id status s =
    update_row-phase i id (λ c. record c { status = status }) s (λ c. refl)

pub schedule_reconnect-phase :
    (w : Outside) (i id : ℕ) (session : Session) (s : Service)
    → phase i (schedule_reconnect w id session s) ≡ phase i s
unfolding schedule_reconnect
schedule_reconnect-phase w i id session s = elim (Option-cases (lookup id s.reconnect_states)) [
  | inl e ↦ rw (e, schedule_reconnect) refl
  | inr (state, e) ↦ elim (Bool-cases (leb state.max_attempts state.attempts)) [
    | inl f ↦ rw (e, f, schedule_reconnect) refl
    | inr f ↦ rw (e, f, schedule_reconnect) refl
  ]
]

pub cancel_reconnect-phase : (i id : ℕ) (s : Service) → phase i (cancel_reconnect id s) ≡ phase i s
unfolding cancel_reconnect
cancel_reconnect-phase i id s = elim (Option-cases (lookup id s.reconnect_states)) [
  | inl e ↦ rw (e, cancel_reconnect) refl
  | inr (state, e) ↦ rw (e, cancel_reconnect) refl
]

reset_attempts-phase : (i id : ℕ) (s : Service) → phase i (reset_attempts id s) ≡ phase i s
reset_attempts-phase i id s = elim (Option-cases (lookup id s.reconnect_states)) [
  | inl e ↦ rw (e, reset_attempts) refl
  | inr (state, e) ↦ rw (e, reset_attempts) refl
]

still_running :
    (id i : ℕ) (engines : List (ℕ × ℕ)) {engine : ℕ}
    → lookup id engines ≡ some engine
    → has_entry i engines ≡ (if id == i then true else has_entry i engines)
still_running id i engines e = elim (Bool-cases (id == i)) [
  | inl h ↦
      let same : id ≡ i = ground arith in
      rw h (subst (λ j. has_entry j engines ≡ true) same (rw e refl))
  | inr h ↦ rw h refl
]

runs_again :
    (id i : ℕ) (engines : List (ℕ × ℕ))
    → (if id == i then true else has_entry i (delete_entry id engines))
      ≡ (if id == i then true else has_entry i engines)
runs_again id i engines = ground (arith, has_entry-delete_entry id i engines)

module _ (w : Outside) (i id : ℕ) (session : Session) where
  pub call_back-phase :
      (c : Callback) (s : Service) → phase i (call_back w id session c s) ≡ phase i s
  unfolding call_back
  call_back-phase on_qr_code s = update_status-phase i id qr_ready (run_hook session_qr id s)
  call_back-phase (on_ready phone push_name) s =
      let now = w.now s.draws in
      let told = run_hook session_ready id (record s { draws = suc s.draws }) in
      update_row-phase i id
        (λ c. record c {
          status = ready;
          phone = some phone;
          push_name = some push_name;
          connected_at = some now;
          last_active_at = some now;
        })
        (reset_attempts id told) (λ c. refl)
      ∙ reset_attempts-phase i id told
  call_back-phase (on_message message) s =
      let now = w.now s.draws in
      let seen =
        update_row-phase i id (λ c. record c { last_active_at = some now })
          (record s { draws = suc s.draws }) (λ c. refl) in
      elim (Option-cases (w.message_hook s.draws message)) [
        | inl e ↦ rw (e, call_back) seen
        | inr (final, e) ↦ rw (e, call_back) seen
      ]
  call_back-phase (on_disconnected reason) s =
      let told = run_hook session_disconnected id s in
      schedule_reconnect-phase w i id session (update_status id disconnected told)
      ∙ update_status-phase i id disconnected told
  call_back-phase (on_state_changed status) s = update_status-phase i id status s

  call_backs-phase :
      (cs : List Callback) (s : Service) → phase i (call_backs w id session cs s) ≡ phase i s
  unfolding call_backs
  call_backs-phase [] s = refl
  call_backs-phase (c ∷ cs) s =
      call_backs-phase cs (call_back w id session c s) ∙ call_back-phase c s

  -- An engine runs for the session from now on, whether it could be initialized or not.
  pub initialize_engine-phase :
      (s : Service)
      → phase i (initialize_engine w id session s).1
        ≡ (known i s, if id == i then true else running i s)
  unfolding initialize_engine
  initialize_engine-phase s =
      let set_engine = record s { engines = set_entry id s.draws s.engines; draws = suc s.draws } in
      let calls = (w.initialize s.draws session).0 in
      let started = call_backs w id session calls set_engine in
      let same =
        call_backs-phase calls set_engine
        ∙ ap (λ r. (known i s, r)) (has_entry-set_entry id i s.draws s.engines) in
      elim (Bool-cases (w.initialize s.draws session).1) [
        | inl e ↦ rw (e, initialize_engine) (update_status-phase i id initializing started ∙ same)
        | inr e ↦ rw (e, initialize_engine) same
      ]

  start_again-phase :
      (s : Service)
      → phase i (start_again w id session s) ≡ (known i s, if id == i then true else running i s)
  unfolding start_again
  start_again-phase s =
      let started = (initialize_engine w id session s).1 in
      elim (Bool-cases (initialize_engine w id session s).0) [
        | inl e ↦ rw (e, start_again) (initialize_engine-phase s)
        | inr e ↦
            rw (e, start_again)
              (schedule_reconnect-phase w i id session started ∙ initialize_engine-phase s)
      ]

  pub execute_reconnect-phase :
      (s : Service)
      → phase i (execute_reconnect w id session s)
        ≡ (known i s, if id == i then true else running i s)
  unfolding execute_reconnect
  execute_reconnect-phase s = elim (Option-cases (lookup id s.engines)) [
    | inl e ↦ rw (e, execute_reconnect) (start_again-phase s)
    | inr (engine, e) ↦
        let asked = record s { draws = suc s.draws } in
        let removed = record asked { engines = delete_entry id s.engines } in
        elim (Bool-cases (w.destroy_throws s.draws engine)) [
          | inl f ↦
              rw (e, f, execute_reconnect)
                (schedule_reconnect-phase w i id session asked
                  ∙ ap (λ r. (known i s, r)) (still_running id i s.engines e))
          | inr f ↦
              rw (e, f, execute_reconnect)
                (start_again-phase removed ∙ ap (λ r. (known i s, r)) (runs_again id i s.engines))
        ]
  ]
